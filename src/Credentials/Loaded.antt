-- ===== src/Credentials/Loaded.antt =====
-- Where a token that is loaded comes from.
use acp_tunnel.Common.{
  ℕ, ◌+◌, ◌≤◌, subst, String, ◌≡◌, false, Option, none, some, List, length, take, take-short, ltb,
  is_blank, arith,
}
use acp_tunnel.Fault.{Error, ok, ok_or, fail_if, >>=-eq-ok, >>-eq-ok, fail_if-eq-ok}
use acp_tunnel.Files.{Answer, answered, or_config}
use acp_tunnel.Files.Frame.{or_config-eq-ok}
use acp_tunnel.Credentials.{
  TokenFile, max_token_file_bytes, has_newline, validate_token_text, read_token_file,
  load_token_from_sources,
}
use acp_tunnel.Credentials.Lines.{LineOf, validate_token_text_iff}

ok_or-eq-ok : {A : Type 0} (o : Option A) (a : A) (e : Error) → ok_or o e ≡ ok a → o ≡ some a
ok_or-eq-ok none a e h = cc
ok_or-eq-ok (some b) a e h = cc

-- A reading that stops one byte past the limit, and is within it, has read everything.
read_whole :
    (limit : ℕ) (bytes : List ℕ)
    → ltb limit (length (take (limit + 1) bytes)) ≡ false
    → (take (limit + 1) bytes ≡ bytes) × (length bytes ≤ limit)
read_whole limit bytes h =
    let within : length (take (limit + 1) bytes) ≤ limit = ground arith in
    let whole : take (limit + 1) bytes ≡ bytes =
      take-short (limit + 1) bytes (omega (arith, within)) in
    (whole, subst (λ read. length read ≤ limit) whole within)

module _ {OsString : Type 0} (display : OsString → String) (open_file : OsString → Answer TokenFile)
    (from_utf8 : List ℕ → Option String) where
  -- A whole file that can be read, of at most 16 KiB, whose text is a line with the token.
  pub record HoldsToken (path : OsString) (token : String) : Type 0 where
    pub file : TokenFile
    pub bytes : List ℕ
    pub text : String
    pub opened : open_file path ≡ answered file
    pub contents : file.contents ≡ answered bytes
    pub small : length bytes ≤ max_token_file_bytes
    pub unicode : from_utf8 bytes ≡ some text
    pub line : LineOf token text

  -- A token is not empty and on one line.
  abbrev pub Solid : String → Type 0
  Solid token = (is_blank token ≡ false) × (has_newline token ≡ false)

  read_token_file-HoldsToken :
      (path : OsString) (token : String)
      → read_token_file display open_file from_utf8 path ≡ ok token
      → HoldsToken path token × Solid token
  unfolding read_token_file
  read_token_file-HoldsToken path token e =
      let (file, o, e1) = >>=-eq-ok (or_config (open_file path) _) _ e in
      let (mode, i, e2) = >>=-eq-ok (or_config file.mode _) _ e1 in
      let (bytes, c, e3) = >>=-eq-ok (or_config file.contents _) _ e2 in
      let (short, e4) =
        >>-eq-ok
          (fail_if (ltb max_token_file_bytes (length (take (max_token_file_bytes + 1) bytes))) _) _
          e3 in
      let (text, u, v) =
        >>=-eq-ok (ok_or (from_utf8 (take (max_token_file_bytes + 1) bytes)) _) validate_token_text
          e4 in
      let (whole, fits) = read_whole max_token_file_bytes bytes (fail_if-eq-ok _ _ short) in
      let (l, solid, one_line) = (validate_token_text_iff text token).0 v in
      (
        record {
          file = file;
          bytes = bytes;
          text = text;
          opened = or_config-eq-ok (open_file path) _ file o;
          contents = or_config-eq-ok file.contents _ bytes c;
          small = fits;
          unicode = subst (λ read. from_utf8 read ≡ some text) whole (ok_or-eq-ok _ text _ u);
          line = l;
        },
        (solid, one_line),
      )

  module _ (into_string : OsString → Option String) where
    -- The one source that is asked for, in the order of preference.
    pub data Source (token : String)
        : Option OsString → Option OsString → Option OsString → Option OsString → Type 0 where
      from_command_line :
          (path : OsString) (environment default : Option OsString)
          → HoldsToken path token
          → Source token (some path) environment none default
      from_environment_file :
          (path : OsString) (default : Option OsString)
          → HoldsToken path token
          → Source token none (some path) none default
      from_environment :
          (direct : OsString) (text : String) (default : Option OsString)
          → into_string direct ≡ some text
          → LineOf token text
          → Source token none none (some direct) default
      from_default_file :
          (path : OsString) → HoldsToken path token → Source token none none none (some path)

    -- A token that is loaded is not empty and has no character of a line's end, and it is the line
    -- of the one source that is asked for: the file named on the command line, or else the file
    -- named in the environment, each only if no token is given directly; or else the token given
    -- directly; or else the default file. A file that it comes from is read whole and has at most
    -- 16 KiB.
    pub load_token_from_sources-Source :
        (cli environment direct default : Option OsString) (token : String)
        → load_token_from_sources display open_file from_utf8 into_string cli environment direct
            default
          ≡ ok token
        → Source token cli environment direct default × Solid token
    unfolding load_token_from_sources
    load_token_from_sources-Source (some path) environment (some direct) default token e = cc
    load_token_from_sources-Source none (some path) (some direct) default token e = cc
    load_token_from_sources-Source (some path) environment none default token e =
        let (holds, solid) = read_token_file-HoldsToken path token e in
        (from_command_line path environment default holds, solid)
    load_token_from_sources-Source none (some path) none default token e =
        let (holds, solid) = read_token_file-HoldsToken path token e in
        (from_environment_file path default holds, solid)
    load_token_from_sources-Source none none (some direct) default token e =
        let (text, u, v) = >>=-eq-ok (ok_or (into_string direct) _) validate_token_text e in
        let (l, solid, one_line) = (validate_token_text_iff text token).0 v in
        (from_environment direct text default (ok_or-eq-ok _ text _ u) l, (solid, one_line))
    load_token_from_sources-Source none none none (some path) token e =
        let (holds, solid) = read_token_file-HoldsToken path token e in
        (from_default_file path holds, solid)
    load_token_from_sources-Source none none none none token e = cc
