-- ===== src/Records/Id/Tests.antt =====
-- Runs and instances for src/records/id.rs.
use oh_my_document.Prelude.{◌≡◌, refl, [], ◌∷◌, codes}
use oh_my_document.Records.Id.{Bytes, frame, be_bytes, salt_from_bytes}

salt_run : salt_from_bytes (0 ∷ 61 ∷ 62 ∷ 255 ∷ []) ≡ codes "A9AH"
unfolding salt_from_bytes
salt_run = refl

-- The two splits of one text hash different bytes.
frame_run : frame (codes "ab") ≡ 0 ∷ 0 ∷ 0 ∷ 0 ∷ 0 ∷ 0 ∷ 0 ∷ 2 ∷ 97 ∷ 98 ∷ []
unfolding frame be_bytes
frame_run = refl

abbrev salt : Bytes
salt = codes "abcdefghijklmnop"
