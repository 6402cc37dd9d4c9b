-- ===== src/Credentials.antt =====
-- src/credentials.rs: where the token of a tunnel is looked for, and the check of its text. The file
-- system is the argument `open_file`: a file has its mode and its bytes, or the text of an error. A text
-- of the operating system is one of a type with the test `into_string` for Unicode, and stands for a
-- path too.
pub mod Lines
pub mod Loaded
use acp_tunnel.Common.{
  ℕ, ◌+◌, ◌*◌, String, Bool, true, false, ◌||◌, ◌&&◌, Option, none, some, is_some, List, [], ◌∷◌,
  length, take, ltb, is_blank, contains_char, strip_suffix, format, if◌then◌else◌,
}
use acp_tunnel.Files.{Answer, or_config}
use acp_tunnel.Fault.{Error, config, Result, ok, err, ◌>>=◌, ok_or, fail_if, ◌>>◌}

abbrev pub max_token_file_bytes : ℕ
max_token_file_bytes = 16 * 1024

-- An open file: its mode, and all its bytes.
pub record TokenFile : Type 0 where
  pub mode : Answer ℕ
  pub contents : Answer (List ℕ)

unfoldable pub new_token : String → Result String
new_token value =
    if is_blank value then err (config "tunnel credential must not be empty") else ok value

unfoldable pub without_line_end : String → String
without_line_end token = elim (strip_suffix "\r\n" token) [
  | some start ↦ start
  | none ↦ elim (strip_suffix "\n" token) [ some start ↦ start | none ↦ token ]
]

unfoldable pub has_newline : String → Bool
has_newline token = contains_char 13 token || contains_char 10 token

unfoldable pub validate_token_text : String → Result String
validate_token_text text =
    let token = without_line_end text in
    fail_if (has_newline token) (config "tunnel credential must not contain embedded newlines")
    >> new_token token

module _ {OsString : Type 0} (display : OsString → String) (open_file : OsString → Answer TokenFile)
    (from_utf8 : List ℕ → Option String) where
  -- The environment's file serves where the command line names none.
  abbrev pub or_else : Option OsString → Option OsString → Option OsString
  or_else (some path) other = some path
  or_else none other = other

  -- The warning about other readers goes to the terminal; only a mode that cannot be had is an error.
  unfoldable pub read_token_file : OsString → Result String
  read_token_file path =
      or_config (open_file path)
        (λ error. format ("cannot read " ∷ display path ∷ ": " ∷ error ∷ []))
      >>= λ file.
          or_config file.mode
            (λ error. format ("cannot inspect " ∷ display path ∷ ": " ∷ error ∷ []))
          >>= λ mode.
              or_config file.contents
                (λ error. format ("cannot read " ∷ display path ∷ ": " ∷ error ∷ []))
              >>= λ contents.
                  let bytes = take (max_token_file_bytes + 1) contents in
                  fail_if (ltb max_token_file_bytes (length bytes))
                    (config (format ("token file " ∷ display path ∷ " exceeds 16 KiB" ∷ [])))
                  >> (ok_or (from_utf8 bytes) (
                        config (
                          format (
                            "token file "
                            ∷ display path
                            ∷ " must contain valid Unicode text"
                            ∷ [])))
                      >>= validate_token_text)

  module _ (into_string : OsString → Option String) where
    unfoldable pub load_token_from_sources :
        Option OsString → Option OsString → Option OsString → Option OsString → Result String
    load_token_from_sources cli_token_file environment_token_file direct_token default_token_file =
        let token_file = or_else cli_token_file environment_token_file in
        fail_if (is_some token_file && is_some direct_token)
          (config "provide a token file or ACP_TUNNEL_TOKEN, but not both")
        >> elim token_file [
          | some path ↦ read_token_file path
          | none ↦ elim direct_token [
            | some token ↦
                ok_or (into_string token)
                  (config "ACP_TUNNEL_TOKEN must contain valid Unicode text")
                >>= validate_token_text
            | none ↦ elim default_token_file [
              | some path ↦ read_token_file path
              | none ↦
                  err (config "set ACP_TUNNEL_TOKEN_FILE or ACP_TUNNEL_TOKEN, or use --token-file")
            ]
          ]
        ]
