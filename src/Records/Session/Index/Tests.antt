-- ===== src/Records/Session/Index/Tests.antt =====
-- A store with one file passes the checks of its indexes.
use mathlib.Core.Option
use oh_my_document.Relations.Node.{parent_in, parent_of}
use oh_my_document.Relations.Identity.Ancestry.{
  authoritative_object, chain_from, describe, kind_of_root, location_after, location_along,
  payload_text, read_or_missing, turns,
}
use oh_my_document.Relations.Identity.{kind_name}
use oh_my_document.Records.Store.{read_commit}
use oh_my_document.Records.Session.Identity.{project_registration, registration_id}
use oh_my_document.Records.Json.{as_str}
use oh_my_document.Records.Id.{from_hex}
use oh_my_document.Records.Commit.{
  allowed_payload_keys, check_allowed, check_required, is_alphanumeric, is_version_hex,
  required_payload_keys, salt_bytes,
}
use oh_my_document.Prelude.Maps.{contains_key, keys, lookup}
use oh_my_document.Prelude.Equality.{option_beq}
use oh_my_document.Prelude.{
  text_eq, text_beq, ok, ◌≡◌, refl, all, contains, split_once, starts_with, strip_prefix,
}
use oh_my_document.Records.Session.Index.{
  validate_identity_index, add_children, check_children, check_file, check_journal, check_kind,
  check_locations, check_mounts, check_range, check_selected, check_tip, check_tips, is_seen,
  project_ranges,
}
use oh_my_document.Records.Session.Index.Sound.{IsSound, validate_identity_index-IsSound}
use oh_my_document.Records.Samples.{fixed, session, world}

indexed : validate_identity_index world session ≡ ok tt
unfolding validate_identity_index check_selected keys project_ranges check_tips check_tip split_once
    contains text_beq authoritative_object chain_from read_or_missing read_commit lookup
    oh_my_document.Records.Commit.validate salt_bytes all is_alphanumeric Option.bind option_beq
    contains_key starts_with strip_prefix allowed_payload_keys check_allowed check_required
    is_version_hex required_payload_keys from_hex as_str project_registration registration_id
    add_children check_children check_file check_journal check_kind check_locations check_mounts
    check_range is_seen describe kind_of_root location_after location_along payload_text turns
    kind_name parent_in parent_of
indexed = refl

validate_identity_index-IsSound_example : IsSound session.stored
validate_identity_index-IsSound_example = validate_identity_index-IsSound world session indexed
