-- ===== src/Fault.antt =====
-- src/error.rs: the error type, and the result monad of the library's fallible functions.
use Prim.Native.String.{◌++◌}
use acp_tunnel.Common.{String, ◌≡◌, ◌⊎◌, inl, inr, refl, Bool, true, false, Option, none, some}

-- Errors of other libraries carry their text.
pub data Error : Type 0 where
  config : String → Error
  unauthorized : Error
  protocol : String → Error
  policy : String → Error
  process : String → Error
  network : String → Error
  io : String → Error
  json : String → Error
  toml : String → Error
  url : String → Error
  web_socket : String → Error
  timeout : String → Error

-- What an error is shown as.
unfoldable pub to_string : Error → String
to_string (config m) = "configuration error: " ++ m
to_string unauthorized = "authentication failed"
to_string (protocol m) = "protocol error: " ++ m
to_string (policy m) = "policy error: " ++ m
to_string (process m) = "process error: " ++ m
to_string (network m) = "network error: " ++ m
to_string (timeout m) = "operation timed out: " ++ m
to_string (io m) = m
to_string (json m) = m
to_string (toml m) = m
to_string (url m) = m
to_string (web_socket m) = m

pub data Result {ℓ} (A : Type ℓ) : Type ℓ where
  ok : A → Result A
  err : Error → Result A

abbrev pub ok_or {ℓ} : {A : Type ℓ} → Option A → Error → Result A
ok_or none e = err e
ok_or (some a) e = ok a

abbrev pub is_ok {ℓ} : {A : Type ℓ} → Result A → Bool
is_ok (ok _) = true
is_ok (err _) = false

-- Fails with `e` if the test holds.
abbrev pub fail_if : Bool → Error → Result (Unit {0})
fail_if true e = err e
fail_if false e = ok tt

-- `?`, and a check whose success carries nothing.
infixl 5 ◌>>=◌
abbrev pub ◌>>=◌ {ℓ κ} : {A : Type ℓ} {B : Type κ} → Result A → (A → Result B) → Result B
ok value >>= rest = rest value
err failure >>= rest = err failure

infixl 5 ◌>>◌
abbrev pub ◌>>◌ {κ} : {B : Type κ} → Result (Unit {0}) → Result B → Result B
ok tt >> rest = rest
err failure >> rest = err failure

-- A chain that succeeds has gone through its first step.
pub >>=-eq-ok {ℓ κ} :
    {A : Type ℓ} {B : Type κ} (first : Result A) (rest : A → Result B) {last : B}
    → (first >>= rest) ≡ ok last
    → (value : A) × (first ≡ ok value) × (rest value ≡ ok last)
>>=-eq-ok (ok value) rest e = (value, refl, e)
>>=-eq-ok (err failure) rest e = cc

pub ok-injective {ℓ} : {A : Type ℓ} (a b : A) → ok a ≡ ok b → a ≡ b
ok-injective a b e = cc

pub Result-cases {ℓ} :
    {A : Type ℓ} (r : Result A) → ((a : A) × (r ≡ ok a)) ⊎ ((e : Error) × (r ≡ err e))
Result-cases (ok a) = inl (a, refl)
Result-cases (err e) = inr (e, refl)

pub >>-eq-ok {ℓ} :
    {A : Type ℓ} (r : Result (Unit {0})) (q : Result A) {a : A}
    → r >> q ≡ ok a
    → (r ≡ ok tt) × (q ≡ ok a)
>>-eq-ok (ok tt) q e = (refl, e)
>>-eq-ok (err m) q e = cc

pub fail_if-eq-ok : (b : Bool) (m : Error) → fail_if b m ≡ ok tt → b ≡ false
fail_if-eq-ok true m e = cc
fail_if-eq-ok false m e = refl
