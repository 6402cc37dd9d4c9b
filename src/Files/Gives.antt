-- ===== src/Files/Gives.antt =====
-- What a computation gives if it succeeds.
use acp_tunnel.Common.{
  ℕ, String, ◌≡◌, refl, sym, ◌∙◌, inl, inr, Option, some, List, [], ◌++◌, Dict, get, Option-cases,
}
use acp_tunnel.Fault.{ok, err, Result-cases}
use acp_tunnel.Files.{
  Node, file, World, answered, failed, Fs, ◌>>=◌, node_at, landing, set_permissions, create_new,
  append_at, call_or,
}
use acp_tunnel.Files.Frame.{get-insert_self, call_or-eq-ok}

pub record Gives {A : Type 0} (f : Fs A) (P : Dict Node → Type 0) (Q : A → Dict Node → Type 0)
    : Type 0 where
  pub gives : (w : World) → P w.entries → (a : A) → (f w).0 ≡ ok a → Q a (f w).1.entries

abbrev pub Anything : Dict Node → Type 0
Anything m = Unit

pub any-Gives : {A : Type 0} (f : Fs A) (P : Dict Node → Type 0) → Gives f P (λ a. Anything)
any-Gives f P = record { gives = λ w p a e. tt }

pub >>=-Gives :
    {A B : Type 0} (first : Fs A) (rest : A → Fs B) (P : Dict Node → Type 0)
    (M : A → Dict Node → Type 0) (Q : B → Dict Node → Type 0)
    → Gives first P M
    → ((a : A) → Gives (rest a) (M a) Q)
    → Gives (first >>= rest) P Q
unfolding ◌>>=◌
>>=-Gives first rest P M Q g h = record {
  gives = λ w p b. elim (Result-cases (first w).0) [
    | inl (a, e) ↦ rw (e, ◌>>=◌) (λ f. (h a).gives (first w).1 (g.gives w p a e) b f)
    | inr (m, e) ↦ rw (e, ◌>>=◌) (λ (f : err m ≡ ok b). cc)
  ];
}

create_new-eq :
    (path : String) (mode : ℕ) (m : Dict Node)
    → (create_new path mode m).0 ≡ answered tt
    → get path (create_new path mode m).1 ≡ some (file mode [])
unfolding create_new
create_new-eq path mode m e = elim (Option-cases (get path m)) [
  | inl missing ↦ rw (missing, create_new) (get-insert_self path (file mode []) m)
  | inr (node, found) ↦
      let stopped : failed "already exists" ≡ answered tt = sym (rw (found, create_new) refl) ∙ e in
      cc
]

-- A mode is set on a file where it stands.
pub set_permissions-file :
    (path : String) (mode old : ℕ) (bytes : List ℕ) (m : Dict Node)
    → get path m ≡ some (file old bytes)
    → get path (set_permissions path mode m).1 ≡ some (file mode bytes)
unfolding set_permissions
set_permissions-file path mode old bytes m e =
    let here : landing m path ≡ path = rw (e, landing) refl in
    let node : node_at m path ≡ some (file old bytes) = rw here e in
    rw (node, set_permissions, here) (get-insert_self path (file mode bytes) m)

pub append_at-file :
    (path : String) (mode : ℕ) (old bytes : List ℕ) (m : Dict Node)
    → get path m ≡ some (file mode old)
    → get path (append_at path bytes m) ≡ some (file mode (old ++ bytes))
append_at-file path mode old bytes m e =
    rw (e, append_at) (get-insert_self path (file mode (old ++ bytes)) m)

module _ (fault : ℕ → Option String) where
  pub create_new-Gives :
      (path : String) (mode : ℕ) (message : String → String)
      → Gives
          (call_or fault (create_new path mode) message)
          Anything
          (λ _ m. get path m ≡ some (file mode []))
  create_new-Gives path mode message = record {
    gives = λ w p a e.
        let (told, after) = call_or-eq-ok fault (create_new path mode) message w a e in
        rw after (create_new-eq path mode w.entries told);
  }

  pub set_permissions-Gives :
      (path : String) (mode old : ℕ) (bytes : List ℕ) (message : String → String)
      → Gives
          (call_or fault (set_permissions path mode) message)
          (λ m. get path m ≡ some (file old bytes))
          (λ _ m. get path m ≡ some (file mode bytes))
  set_permissions-Gives path mode old bytes message = record {
    gives = λ w p a e.
        let (_, after) = call_or-eq-ok fault (set_permissions path mode) message w a e in
        rw after (set_permissions-file path mode old bytes w.entries p);
  }
