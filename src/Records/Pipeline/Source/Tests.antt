-- ===== src/Records/Pipeline/Source/Tests.antt =====
-- Runs of `commit_source`: a new file, and one that is cleaned.
use oh_my_document.Relations.Node.{
  file_key, is_audit_key, is_file_key, is_journal_key, is_note_key, is_range_key,
}
use oh_my_document.Records.Version.{content_sha256, new_with_recovery}
use oh_my_document.Records.Id.{
  be_bytes, derive_commit_id, frame, from_hex, preimage, salt_char, salt_from_bytes,
}
use oh_my_document.Records.Canonical.{
  canonical_payload, canonical_payload_bytes, derive_id, fields_of, insert_member, jcs, join,
  member, parse_content_ref, tips_of,
}
use oh_my_document.Prelude.{
  false, not, ◌&&◌, ◌||◌, ◌==◌, [], ◌∷◌, Text, text_eq, text_beq, codes, none, some, Result, ok,
  ◌≡◌, refl, contains, all, retain, split_once, starts_with, strip_prefix, text_ltb,
}
use oh_my_document.Prelude.Maps.{lookup, contains_key, insert, insert_key, keys, sort_dedup}
use oh_my_document.Records.Json.{Payload, string, as_str}
use oh_my_document.Records.Commit.{
  clean, init, allowed_payload_keys, check_allowed, check_required, is_alphanumeric, is_version_hex,
  kind_name, required_payload_keys, salt_bytes, validate,
}
use oh_my_document.Records.Store.{read_commit}
use mathlib.Core.Option
use oh_my_document.Relations.Identity.Ancestry.{
  resolve_version_on_chain, chain_root, chain_root_from, payload_text, pick, read_or_missing,
  resolve_commit_id, turns,
}
use oh_my_document.Records.Session.{Session, source_version_id}
use oh_my_document.Records.Session.Evidence.{descriptor_beq, require_source_expected}
use oh_my_document.Records.Pipeline.{
  Publication, PipelineError, object_key, published_node_key, advance, canonicalize_mount, checked,
  commit_err, make_commit, make_version, object_at_path, object_in, place_file, place_object,
  range_tips_of, seal, structural, tips_from, writable,
}
use oh_my_document.Records.Pipeline.Links.{commit_link, endpoint_ok}
use oh_my_document.Records.Pipeline.Source.{
  Observation, commit_source, add_pending, first_observation, last_of, links_from, mark_block,
  oblige, observe_source, payload_range, place_source, source_effect, source_record, source_version,
  sourced, targets_from, validate_range_payload, with_content, evidence_node, is_byte_mode,
  later_observation, view_changed,
}
use oh_my_document.Relations.Dirty.{DirtyState}
use oh_my_document.Records.Pipeline.Owed.{is_owed, obligations-commit_source}
use oh_my_document.Records.Pipeline.Effects.{is_pending}
use oh_my_document.Records.Pipeline.Pending.{is_downstream, pending-commit_source}
use oh_my_document.Sources.Reference.{SourceDescriptor, file}
use oh_my_document.Records.Samples.{
  version, fixed, env, granted, reader, session, evidence, outcome,
}

abbrev bytes : Observation
bytes = record { bytes = 7 ∷ []; is_text = false; encoding = none }

abbrev b_file : SourceDescriptor
b_file = file (codes "root") (codes "b.md")

abbrev b_payload : Payload
b_payload = (codes "path", string (codes "b.md")) ∷ []

abbrev sourcing : Result PipelineError Publication
sourcing =
    commit_source env reader granted session evidence (codes "file:b.md") b_file b_file (some bytes)
      none init b_payload

abbrev sourced_now : Publication
sourced_now = outcome sourcing

sourcing-run : sourcing ≡ ok sourced_now
unfolding commit_source writable observe_source contains_key text_beq object_key strip_prefix
    object_at_path object_in read_commit validate salt_bytes all is_alphanumeric is_version_hex
    from_hex check_allowed keys contains allowed_payload_keys check_required required_payload_keys
    first_observation source_record validate_range_payload payload_range Option.bind
    canonicalize_mount seal commit_err mark_block is_range_key starts_with make_commit
    salt_from_bytes source_version with_content make_version new_with_recovery derive_id
    place_source place_object is_file_key place_file payload_text as_str commit_link endpoint_ok
    is_journal_key is_audit_key is_note_key checked resolve_version_on_chain resolve_commit_id
    chain_root chain_root_from read_or_missing retain insert insert_key lookup sort_dedup split_once
    text_ltb canonical_payload canonical_payload_bytes fields_of insert_member jcs join member
    parse_content_ref tips_of kind_name be_bytes derive_commit_id frame preimage salt_char advance
    structural content_sha256 pick turns sourced oblige add_pending links_from targets_from
    source_effect last_of published_node_key range_tips_of file_key tips_from
sourcing-run = refl

abbrev b_key : Text
b_key =
    published_node_key (object_key session.stored (codes "file:b.md"))
      (not (contains_key (object_key session.stored (codes "file:b.md")) session.stored.state.tips))
      sourced_now.commit_id

pending-commit_source_example :
    is_pending (codes "A") (codes "L") sourced_now.new_state.link_pending ≡ (
      is_pending (codes "A") (codes "L") session.stored.state.link_pending
      || (codes "A" == sourced_now.commit_id
          && is_downstream b_key (codes "L") session.stored.state.links))
pending-commit_source_example =
    pending-commit_source env reader granted session evidence (codes "file:b.md") b_file b_file
      (some bytes) none init b_payload sourced_now (codes "A") (codes "L") sourcing-run

-- The file A, with an obligation, is observed and cleaned.
abbrev owed : DirtyState
owed = record {
  dirty = [];
  obligations = record { commit_id = codes "U"; reason = codes "r"; atop = [] } ∷ [];
}

abbrev observed : Session
observed = record session {
  stored = record session.stored {
    state = record session.stored.state { dirty = (codes "file:A", owed) ∷ [] };
  };
  observed_versions = (codes "file:A", version) ∷ [];
  observed_bytes = (codes "file:A", 7 ∷ []) ∷ [];
}

abbrev a_file : SourceDescriptor
a_file = file (codes "root") (codes "a.md")

abbrev cleaning : Result PipelineError Publication
cleaning =
    commit_source env reader granted observed evidence (codes "file:A") a_file a_file none none
      clean []

abbrev cleaned : Publication
cleaned = outcome cleaning

cleaning-run : cleaning ≡ ok cleaned
unfolding commit_source writable observe_source contains_key text_beq object_key strip_prefix
    object_at_path object_in read_commit validate salt_bytes all is_alphanumeric is_version_hex
    from_hex check_allowed keys contains allowed_payload_keys check_required required_payload_keys
    first_observation source_record validate_range_payload payload_range Option.bind
    canonicalize_mount seal commit_err mark_block is_range_key starts_with make_commit
    salt_from_bytes source_version with_content make_version new_with_recovery derive_id
    place_source place_object is_file_key place_file payload_text as_str commit_link endpoint_ok
    is_journal_key is_audit_key is_note_key checked resolve_version_on_chain resolve_commit_id
    chain_root chain_root_from read_or_missing retain insert insert_key lookup sort_dedup split_once
    text_ltb canonical_payload canonical_payload_bytes fields_of insert_member jcs join member
    parse_content_ref tips_of kind_name be_bytes derive_commit_id frame preimage salt_char advance
    structural content_sha256 pick turns sourced oblige add_pending links_from targets_from
    source_effect last_of published_node_key range_tips_of file_key tips_from evidence_node
    later_observation descriptor_beq view_changed is_byte_mode require_source_expected
    source_version_id oh_my_document.Records.Session.content_ref_from
cleaning-run = refl

abbrev a_key : Text
a_key =
    published_node_key (object_key observed.stored (codes "file:A"))
      (not (contains_key (object_key observed.stored (codes "file:A")) observed.stored.state.tips))
      cleaned.commit_id

obligations-commit_source_example : is_owed (codes "U") (codes "file:A") cleaned.new_state.dirty ≡ (
    (is_owed (codes "U") (codes "file:A") observed.stored.state.dirty
      && not (a_key == codes "file:A" && codes "U" == cleaned.commit_id))
    || false)
obligations-commit_source_example =
    obligations-commit_source env reader granted observed evidence (codes "file:A") a_file a_file
      none none clean [] cleaned (codes "U") (codes "file:A") cleaning-run
