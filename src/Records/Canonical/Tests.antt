-- ===== src/Records/Canonical/Tests.antt =====
-- Payloads and the bytes that ids are derived from.
use oh_my_document.Prelude.{[], ◌∷◌, Text, text_eq, text_beq, text_ltb, codes, ◌≡◌, refl}
use oh_my_document.Prelude.Maps.{insert}
use oh_my_document.Records.Json.{string}
use oh_my_document.Records.Canonical.{
  OperationPayload, canonical_payload_bytes, fields_of, jcs, insert_member, join, member,
}

abbrev patch_of : Text → OperationPayload
patch_of kind = record {
  kind = codes "note_patch";
  schema = codes "omd.commit/3";
  content_ref = codes "empty";
  fields = (codes "kind", string kind) ∷ (codes "target", string (codes "t")) ∷ [];
}

abbrev plain : Text → Text
plain s = s

keys_sorted :
    canonical_payload_bytes plain (patch_of [])
    ≡ codes "{content_ref:empty,kind:note_patch,schema:omd.commit/3,target:t}"
unfolding canonical_payload_bytes jcs join fields_of insert text_beq text_ltb insert_member member
keys_sorted = refl

-- The kind of a patch in its payload makes no difference.
payload_kind_lost :
    canonical_payload_bytes plain (patch_of (codes "append"))
    ≡ canonical_payload_bytes plain (patch_of (codes "replace"))
unfolding canonical_payload_bytes insert text_beq text_ltb
payload_kind_lost = refl
