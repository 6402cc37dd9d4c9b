-- ===== src/Server/Socket/Asked.antt =====
-- What the task of a WebSocket is asked to write, and what it comes to.
use acp_tunnel.Common.{
  String, ◌≡◌, refl, ap, ◌∙◌, ◌⊎◌, inl, inr, Bool, true, false, Option, none, some, List, [], ◌∷◌,
  ◌++◌, append-nil, All, All-map, Occurs,
}
use acp_tunnel.Protocol.{Envelope}
use acp_tunnel.Server.Transport.{TransportCommand, envelope, exit, shutdown_complete}
use acp_tunnel.Server.Socket.{Message, text, ping, pong, binary, close, Turn, command, Task}

abbrev pub texts : List Message → List String
texts [] = []
texts (text s ∷ ms) = s ∷ texts ms
texts (_ ∷ ms) = texts ms

pub texts-append : (a b : List Message) → texts (a ++ b) ≡ texts a ++ texts b
texts-append [] b = refl
texts-append (text s ∷ a) b = ap (◌∷◌ s) (texts-append a b)
texts-append (ping p ∷ a) b = texts-append a b
texts-append (pong p ∷ a) b = texts-append a b
texts-append (binary p ∷ a) b = texts-append a b
texts-append (close ∷ a) b = texts-append a b

pub Occurs-append : {A : Type 0} (a : A) (xs ys : List A) → Occurs a xs → Occurs a (xs ++ ys)
Occurs-append a [] ys o = absurd o
Occurs-append a (x ∷ xs) ys (inl e) = inl e
Occurs-append a (x ∷ xs) ys (inr o) = inr (Occurs-append a xs ys o)

pub Occurs-last : {A : Type 0} (a : A) (xs : List A) → Occurs a (xs ++ a ∷ [])
Occurs-last a [] = inl refl
Occurs-last a (x ∷ xs) = inr (Occurs-last a xs)

abbrev pub envelope_of : TransportCommand → Envelope
envelope_of (envelope e) = e
envelope_of (exit e) = e
envelope_of (shutdown_complete e) = e

-- What comes of writing a message.
pub data Tried (m : Message) (task : Task) : Task × Bool → Type 0 where
  took : Tried m task (record task { written = task.written ++ m ∷ [] }, true)
  left_alone : Tried m task (task, false)

-- From one state of the task to another, with what it was asked to write between them: what is not
-- written is the end of it, and there is such an end only where the task has stopped.
pub record Follows (before after : Task) (asked : List String) : Type 0 where
  pub rest : List String
  pub same : texts after.written ++ rest ≡ texts before.written ++ asked
  pub left : (after.running ≡ false) ⊎ (rest ≡ [])

-- Nothing was asked, and no text was written.
pub still :
    (before after : Task) → texts after.written ≡ texts before.written → Follows before after []
still before after e = record { rest = []; same = ap (λ l. l ++ []) e; left = inr refl }

-- The one text that was asked was written.
pub wrote :
    (before after : Task) (s : String)
    → after.written ≡ before.written ++ text s ∷ []
    → Follows before after (s ∷ [])
wrote before after s e = record {
  rest = [];
  same = append-nil _ ∙ ap texts e ∙ texts-append before.written (text s ∷ []);
  left = inr refl;
}

-- The task has stopped without it.
pub gave_up :
    (before after : Task) (asked : List String)
    → texts after.written ≡ texts before.written
    → after.running ≡ false
    → Follows before after asked
gave_up before after asked e stopped = record {
  rest = asked;
  same = ap (λ l. l ++ asked) e;
  left = inl stopped;
}

module _ (to_text : Envelope → Option String) where
  abbrev pub one : Option String → List String
  one none = []
  one (some s) = s ∷ []

  -- What a turn asks to be written.
  abbrev pub wanted : Turn → List String
  wanted (command (some c)) = one (to_text (envelope_of c))
  wanted _ = []

  abbrev pub all_wanted : List Turn → List String
  all_wanted [] = []
  all_wanted (t ∷ turns) = wanted t ++ all_wanted turns

  -- An envelope's text was written.
  abbrev pub Sent : List Message → Envelope → Type 0
  Sent written e = (s : String) × (to_text e ≡ some s) × Occurs (text s) written

  abbrev pub AllSent : Task → Type 0
  AllSent task = All (Sent task.written) task.replied

  pub grow :
      (w more : List Message) (es : List Envelope) → All (Sent w) es → All (Sent (w ++ more)) es
  grow w more es h = All-map (λ e (s, there, o). (s, there, Occurs-append (text s) w more o)) es h
