-- ===== src/Records/Commit/Tests.antt =====
-- Runs and instances for src/records/commit.rs.
use oh_my_document.Prelude.{
  Bool, true, Text, text_eq, text_beq, Option, none, ok, err, ◌≡◌, ◌↔◌, refl, [], ◌∷◌, codes,
  contains, all,
}
use oh_my_document.Prelude.Maps.{keys, contains_key}
use oh_my_document.Records.Json.{string}
use oh_my_document.Records.Id.{Bytes}
use oh_my_document.Records.Commit.{
  Commit, init, delete, missing_field, validate, salt_bytes, is_alphanumeric, check_allowed,
  check_required, allowed_payload_keys, required_payload_keys,
}
use oh_my_document.Records.Commit.Laws.{IsAccepted, validate_iff}

abbrev first_commit : Commit
first_commit = record {
  id = none;
  salt = codes "0123456789abcdef";
  previous_id = [];
  timestamp = codes "2026-01-01T00:00:00Z";
  schema = codes "omd.commit/3";
  kind = init;
  content_ref = codes "empty";
  payload = (codes "path", string (codes "a.md")) ∷ [];
  range_tips = [];
}

abbrev any_time : Text → Bool
any_time s = true

abbrev no_hex : Text → Option Bytes
no_hex s = none

accepted : validate any_time no_hex first_commit true ≡ ok tt
unfolding validate salt_bytes is_alphanumeric check_allowed check_required allowed_payload_keys
    required_payload_keys keys contains_key contains all text_beq
accepted = refl

missing_source :
    validate any_time no_hex (record first_commit { kind = delete }) true
    ≡ err (missing_field (codes "source"))
unfolding validate salt_bytes is_alphanumeric check_allowed check_required allowed_payload_keys
    required_payload_keys keys contains_key contains all text_beq
missing_source = refl

validate_iff_example :
    (validate any_time no_hex first_commit true ≡ ok tt)
    ↔ IsAccepted any_time no_hex first_commit true
validate_iff_example = validate_iff any_time no_hex first_commit true
