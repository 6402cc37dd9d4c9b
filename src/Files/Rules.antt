-- ===== src/Files/Rules.antt =====
-- What computations keep and give where they do not call the operating system.
use acp_tunnel.Common.{
  ℕ, String, ◌≡◌, refl, sym, Bool, true, false, Option, none, some, List, Dict, if◌then◌else◌,
}
use acp_tunnel.Fault.{Result, ok, err, ok-injective}
use acp_tunnel.Files.{Node, Fs, ◌>>=◌, done, lift, required}
use acp_tunnel.Files.Frame.{Stands, Keeps}
use acp_tunnel.Files.Gives.{Gives, Anything}

pub required-Keeps :
    {A : Type 0} (o : Option A) (message : String) (q : String) (c : List ℕ)
    → Keeps q c (required o message)
unfolding required
required-Keeps none message q c = record { keeps = λ w h. h }
required-Keeps (some a) message q c = record { keeps = λ w h. h }

pub if-Keeps :
    {A : Type 0} (b : Bool) (f g : Fs A) (q : String) (c : List ℕ)
    → Keeps q c f
    → Keeps q c g
    → Keeps q c (if b then f else g)
if-Keeps true f g q c k l = k
if-Keeps false f g q c k l = l

pub done-Keeps : {A : Type 0} (a : A) (q : String) (c : List ℕ) → Keeps q c (done a)
unfolding done
done-Keeps a q c = record { keeps = λ w h. h }

pub lift-Keeps : {A : Type 0} (r : Result A) (q : String) (c : List ℕ) → Keeps q c (lift r)
unfolding lift
lift-Keeps r q c = record { keeps = λ w h. h }

-- A step that asks nothing of the operating system, and succeeds.
pub lift-Gives :
    {A B : Type 0} (r : Result A) (rest : A → Fs B) (P : Dict Node → Type 0)
    (Q : B → Dict Node → Type 0)
    → ((a : A) → r ≡ ok a → Gives (rest a) P Q)
    → Gives (lift r >>= rest) P Q
unfolding ◌>>=◌ lift
lift-Gives (ok a) rest P Q g = record { gives = λ w p b e. (g a refl).gives w p b e }
lift-Gives (err m) rest P Q g = record { gives = λ w p b (e : err m ≡ ok b). cc }

pub done-Gives :
    {A : Type 0} (a : A) (P : Dict Node → Type 0) (Q : A → Dict Node → Type 0)
    → ((m : Dict Node) → P m → Q a m)
    → Gives (done a) P Q
unfolding done
done-Gives a P Q q = record { gives = λ w p b e. rw (sym (ok-injective a b e)) (q w.entries p) }

pub if-Gives :
    {A : Type 0} (b : Bool) (f g : Fs A) (P : Dict Node → Type 0) (Q : A → Dict Node → Type 0)
    → Gives f P Q
    → Gives g P Q
    → Gives (if b then f else g) P Q
if-Gives true f g P Q k l = k
if-Gives false f g P Q k l = l

-- A file that a computation loses nothing of, next to what the computation gives.
pub Keeps-Gives :
    {A : Type 0} (f : Fs A) (q : String) (c : List ℕ) (Q : A → Dict Node → Type 0)
    → Keeps q c f
    → Gives f Anything Q
    → Gives f (λ m. Stands m q c) (λ a m. Q a m × Stands m q c)
Keeps-Gives f q c Q k g = record { gives = λ w p a e. (g.gives w tt a e, k.keeps w p) }
