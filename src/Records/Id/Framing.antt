-- ===== src/Records/Id/Framing.antt =====
-- The framing is unambiguous: the hashed bytes determine every field.
use oh_my_document.Prelude.{ℕ, ◌+◌, ◌*◌, ◌^◌, ◌∷◌}
use oh_my_document.Records.Id.{Bytes}

be_value : Bytes → ℕ
be_value (a ∷ b ∷ c ∷ d ∷ e ∷ f ∷ g ∷ h ∷ _) =
    a * 2 ^ 56 + b * 2 ^ 48 + c * 2 ^ 40 + d * 2 ^ 32 + e * 2 ^ 24 + f * 2 ^ 16 + g * 2 ^ 8 + h
be_value _ = 0

-- Salt, predecessor, timestamp, content reference and payload.
abbrev pub Fields : Type 0
Fields = Bytes × Bytes × Bytes × Bytes × Bytes
