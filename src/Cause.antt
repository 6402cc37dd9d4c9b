-- ===== src/Cause.antt =====
-- What an end of the tunnel acts upon: nothing that the other end or its own process gives it, an
-- envelope of the other end, or a line of its own process (the agent, or standard input).
use acp_tunnel.Common.{String, List, [], ◌∷◌, ◌++◌}
use acp_tunnel.Protocol.{Envelope}

pub data Cause : Type 0 where
  silent : Cause
  hears : Envelope → Cause
  reads : String → Cause

-- A line that was read cannot go unnoticed.
abbrev pub MayKeep : Cause → Type 0
MayKeep (reads _) = ⊥
MayKeep _ = Unit

abbrev pub line_of : Cause → List String → List String
line_of (reads line) lines = lines ++ line ∷ []
line_of _ lines = lines
