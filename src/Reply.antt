-- ===== src/Reply.antt =====
-- What a dependency returns: a value, or the message of its error.
use deep_agent_cli.Text.{Text}

pub data Reply {ℓ} (A : Type ℓ) : Type ℓ where
  value : A → Reply A
  fault : Text → Reply A
