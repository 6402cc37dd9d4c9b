-- ===== src/Setup/Doctor/Reachable.antt =====
-- The public URL is without an error exactly where it is reachable.
use acp_tunnel.Common.{
  ℕ, String, ◌≡◌, refl, inl, inr, ◌↔◌, Bool, true, false, Option, none, some, List, [], ◌∷◌, arith,
  Bool-cases,
}
use acp_tunnel.Fault.{ok, Result-cases}
use acp_tunnel.Files.{Answer-cases, answered}
use acp_tunnel.Setup.Doctor.Notices.{
  has_errors, Handshake, http, broken, upgraded, PublicUrl, any, diagnose_public_url,
  diagnose_handshake, diagnose_websocket_endpoint, diagnose_url, endpoint,
}
use acp_tunnel.Setup.Doctor.Quiet.{Quiet, IsReachable}

handshake-Quiet :
    (status_text : ℕ → String) (h : Handshake)
    → Quiet (diagnose_handshake status_text h) ↔ (h ≡ http 401)
unfolding diagnose_handshake has_errors
handshake-Quiet status_text (http status) = ground arith
handshake-Quiet status_text (broken e) = (λ q. cc, λ p. cc)
handshake-Quiet status_text upgraded = (λ q. cc, λ p. cc)

same_live :
    {A : Type 0} (p : A → Bool) (xs ys : List A)
    → answered xs ≡ answered ys
    → any p ys ≡ true
    → any p xs ≡ true
same_live p xs ys e t = let same : xs ≡ ys = cc in rw same t

module _ (url : PublicUrl) (checked : url.check ≡ ok tt) where
  public_url-Quiet : Quiet (diagnose_public_url url) ↔ (
      (addresses : List url.Address) × (url.socket_addrs ≡ answered addresses)
      × (any url.connects addresses ≡ true))
  unfolding diagnose_public_url has_errors
  public_url-Quiet = elim (Answer-cases url.socket_addrs) [
    | inr (e, f) ↦ rw (checked, f, diagnose_public_url) (λ q. cc, λ p. cc)
    | inl ([], f) ↦
        rw (checked, f, diagnose_public_url)
          (
            λ (q : true ≡ false). cc,
            λ p. let live : false ≡ true = same_live url.connects [] p.0 p.1 p.2 in cc,
          )
    | inl (a ∷ addresses, f) ↦ elim (Bool-cases (any url.connects (a ∷ addresses))) [
      | inl live ↦
          rw (checked, f, live, diagnose_public_url) (λ _. (a ∷ addresses, refl, live), λ _. refl)
      | inr dead ↦
          rw (checked, f, dead, diagnose_public_url)
            (
              λ (q : true ≡ false). cc,
              λ p. let live = same_live url.connects (a ∷ addresses) p.0 p.1 p.2 in cc,
            )
    ]
  ]

pub url-Quiet :
    (status_text : ℕ → String) (url : Option PublicUrl)
    → (Quiet (diagnose_url url) × Quiet (endpoint status_text url)) ↔ IsReachable url
unfolding diagnose_url diagnose_websocket_endpoint diagnose_handshake
url-Quiet status_text none = unfold has_errors in (λ _. tt, λ _. (refl, refl))
url-Quiet status_text (some url) = elim (Result-cases url.check) [
  | inr (e, refused) ↦
      unfold has_errors diagnose_public_url in
      rw (refused, diagnose_public_url) (λ q. cc, λ p. absurd p.0)
  | inl (_, checked) ↦
      let (into, from) = public_url-Quiet url checked in
      let (told, untold) = handshake-Quiet status_text url.handshake in
      let same : diagnose_websocket_endpoint status_text url
          ≡ diagnose_handshake status_text url.handshake =
        rw (checked, diagnose_websocket_endpoint) refl in
      (λ q. (rw checked tt, into q.0, told (rw same at q.1)), λ p. (from p.1, rw same (untold p.2)))
]
