-- ===== src/Tests/Tokens.antt =====
-- Examples of the theorems about tokens: their texts and their sources.
use acp_tunnel.Common.{
  ℕ, String, ◌≡◌, refl, ◌↔◌, false, Option, none, some, List, [], ◌∷◌, length, ◌==◌, is_blank,
  if◌then◌else◌, contains_char, same_text, strip_suffix,
}
use acp_tunnel.Fault.{ok}
use acp_tunnel.Files.{Answer, answered}
use acp_tunnel.Credentials.{
  TokenFile, new_token, without_line_end, has_newline, validate_token_text, read_token_file,
  load_token_from_sources,
}
use acp_tunnel.Credentials.Lines.{LineOf, validate_token_text_iff}
use acp_tunnel.Credentials.Loaded.{Source, Solid, load_token_from_sources-Source}

validate_token_text_iff_example :
    (validate_token_text "secret\r\n" ≡ ok "secret")
    ↔ (LineOf "secret" "secret\r\n" × (is_blank "secret" ≡ false) × (has_newline "secret" ≡ false))
validate_token_text_iff_example = validate_token_text_iff "secret\r\n" "secret"

accepts_secret : validate_token_text "secret\r\n" ≡ ok "secret"
unfolding validate_token_text without_line_end has_newline new_token is_blank contains_char
    same_text strip_suffix
accepts_secret = refl

-- One file of two bytes.
abbrev sample_file : String → Answer TokenFile
sample_file path = answered (record { mode = answered 384; contents = answered (115 ∷ 10 ∷ []) })

abbrev sample_text : List ℕ → Option String
sample_text bytes = if length bytes == 2 then some "s\n" else none

loaded :
    load_token_from_sources
      (λ path. path)
      sample_file
      sample_text
      some
      none
      (some "token")
      none
      (some "other")
    ≡ ok "s"
unfolding load_token_from_sources read_token_file validate_token_text without_line_end has_newline
    new_token is_blank contains_char same_text strip_suffix
loaded = refl

load_token_from_sources-Source_example :
    Source (λ path. path) sample_file sample_text some "s" none (some "token") none (some "other")
    × Solid (λ path. path) sample_file sample_text "s"
load_token_from_sources-Source_example =
    load_token_from_sources-Source (λ path. path) sample_file sample_text some none (some "token")
      none (some "other") "s" loaded
