-- ===== src/Records/Pipeline/Tests.antt =====
-- Runs of the commands on small stores.
use oh_my_document.Relations.Node.{
  audit_key, file_key, is_audit_key, is_file_key, is_journal_key, is_note_key, is_range_key,
  note_key, range_key,
}
use oh_my_document.Records.Version.{content_sha256, new_with_recovery}
use oh_my_document.Records.Id.{
  be_bytes, derive_commit_id, frame, from_hex, preimage, salt_char, salt_from_bytes,
}
use oh_my_document.Records.Canonical.{
  canonical_payload, canonical_payload_bytes, derive_id, fields_of, insert_member, jcs, join,
  member, parse_content_ref, tips_of,
}
use oh_my_document.Prelude.{
  Bool, true, false, not, ◌&&◌, ◌==◌, if◌then◌else◌, List, [], ◌∷◌, Text, text_eq, text_beq, codes,
  none, some, Result, ok, ◌≡◌, ◌≢◌, refl, arith, contains, all, retain, split_once, starts_with,
  text_ltb,
}
use oh_my_document.Prelude.Maps.{lookup, contains_key, insert, insert_key, keys, sort_dedup}
use oh_my_document.Records.Json.{Payload, string}
use oh_my_document.Records.Commit.{
  note_init, allowed_payload_keys, check_allowed, check_required, is_alphanumeric, is_version_hex,
  kind_name, required_payload_keys, salt_bytes, validate,
}
use oh_my_document.Records.Store.{read_commit}
use oh_my_document.Relations.Identity.Ancestry.{
  resolve_version_on_chain, chain_root, chain_root_from, pick, read_or_missing, resolve_commit_id,
  turns,
}
use oh_my_document.Records.Session.{Session}
use oh_my_document.Records.Session.Evidence.{check_expected}
use oh_my_document.Records.Session.Tests.{accepted, unknown}
use oh_my_document.Relations.Identity.Named.{Names}
use oh_my_document.Records.Pipeline.{
  Publication, PipelineError, tip_of, published_node_key, advance, checked, commit_err, make_commit,
  make_version, seal, structural, writable,
}
use oh_my_document.Records.Pipeline.Links.{
  commit_link, commit_adapt, endpoint_ok, acknowledge, adapt_payload, add_link, changes_value,
  drop_changes, endpoint_version, link_payload, plan_link,
}
use oh_my_document.Records.Pipeline.Journal.{
  commit_journal, is_journal_kind, sentinel_ok, starts_journal,
}
use oh_my_document.Records.Pipeline.Log.{Writes, journal, Chain, start, published}
use oh_my_document.Records.Pipeline.Log.History.{
  none_yet, then_publish, HasHistories, Writes-log, Reach-HasHistories,
}
use oh_my_document.Records.Pipeline.Conflict.{Writes-conflict}
use oh_my_document.Records.Pipeline.Effects.{commit_link-anchored, pending-commit_adapt, is_pending}
use oh_my_document.Records.Samples.{
  fixed, env, granted, reader, noted, empty_store, session, world, evidence, outcome, digits,
}

abbrev linking : Result PipelineError Publication
linking =
    commit_link env granted noted (codes "note:A") (codes "note:A") (codes "A") (codes "note:A")
      (codes "A") (codes "same")

abbrev linked : Publication
linked = outcome linking

linking-run : linking ≡ ok linked
unfolding commit_link endpoint_ok is_range_key starts_with is_journal_key is_audit_key is_note_key
    checked writable contains_key text_beq resolve_version_on_chain resolve_commit_id contains
    chain_root chain_root_from read_or_missing read_commit all retain insert insert_key keys lookup
    sort_dedup split_once text_ltb canonical_payload canonical_payload_bytes derive_id fields_of
    insert_member jcs join member parse_content_ref tips_of allowed_payload_keys check_allowed
    check_required is_alphanumeric is_version_hex kind_name required_payload_keys salt_bytes
    validate be_bytes derive_commit_id frame from_hex preimage salt_char salt_from_bytes add_link
    endpoint_version link_payload plan_link advance commit_err make_commit make_version seal
    structural content_sha256 new_with_recovery pick turns
linking-run = refl

new_link : lookup linked.answer noted.state.link_pending ≡ none
unfolding commit_link lookup text_beq endpoint_ok is_range_key starts_with is_journal_key
    is_audit_key is_note_key checked writable contains_key resolve_version_on_chain
    resolve_commit_id contains chain_root chain_root_from read_or_missing all retain insert
    insert_key keys sort_dedup split_once text_ltb canonical_payload canonical_payload_bytes
    derive_id fields_of insert_member jcs join member parse_content_ref tips_of allowed_payload_keys
    check_allowed check_required is_alphanumeric is_version_hex kind_name required_payload_keys
    salt_bytes validate be_bytes derive_commit_id frame from_hex preimage salt_char salt_from_bytes
    add_link endpoint_version link_payload plan_link advance commit_err make_commit make_version
    seal structural read_commit content_sha256 new_with_recovery pick turns
new_link = refl

abbrev adapting : Result PipelineError Publication
adapting =
    commit_adapt env granted noted (codes "note:A") (codes "L") (codes "A" ∷ []) (codes "seen")
      false false

abbrev adapted : Publication
adapted = outcome adapting

adapting-run : adapting ≡ ok adapted
unfolding commit_adapt checked writable contains_key text_beq seal commit_err validate salt_bytes
    structural salt_from_bytes all is_alphanumeric check_allowed keys adapt_payload insert text_ltb
    contains retain lookup canonical_payload canonical_payload_bytes derive_id fields_of
    insert_member jcs join member parse_content_ref tips_of allowed_payload_keys check_required
    is_version_hex kind_name required_payload_keys be_bytes derive_commit_id frame from_hex preimage
    salt_char acknowledge changes_value drop_changes advance make_commit make_version content_sha256
    new_with_recovery
adapting-run = refl

pending-commit_adapt_example : is_pending (codes "A") (codes "L") adapted.new_state.link_pending ≡ (
    is_pending (codes "A") (codes "L") noted.state.link_pending
    && not (codes "L" == codes "L" && contains (codes "A") (codes "A" ∷ [])))
pending-commit_adapt_example =
    pending-commit_adapt env granted noted (codes "note:A") (codes "L") (codes "A" ∷ [])
      (codes "seen") false false adapted (codes "A") (codes "L") adapting-run

abbrev note_payload : Payload
note_payload = (codes "target", string (codes "t")) ∷ (codes "text", string (codes "x")) ∷ []

abbrev noting : Result PipelineError Publication
noting = commit_journal env granted session.stored (codes "note:pending") note_init note_payload

abbrev noted_now : Publication
noted_now = outcome noting

noting-run : noting ≡ ok noted_now
unfolding commit_journal is_journal_kind sentinel_ok text_beq checked writable contains_key
    starts_journal seal commit_err validate salt_bytes structural salt_from_bytes all
    is_alphanumeric check_allowed keys contains insert lookup starts_with text_ltb canonical_payload
    canonical_payload_bytes derive_id fields_of insert_member jcs join member parse_content_ref
    tips_of allowed_payload_keys check_required is_version_hex kind_name required_payload_keys
    be_bytes derive_commit_id frame from_hex preimage salt_char advance make_commit make_version
    published_node_key content_sha256 new_with_recovery audit_key file_key is_audit_key is_file_key
    is_journal_key is_note_key note_key range_key
noting-run = refl

noting-new : lookup noted_now.commit_id session.stored.commits ≡ none
unfolding commit_journal lookup text_beq is_journal_kind sentinel_ok checked writable contains_key
    starts_journal seal commit_err validate salt_bytes structural salt_from_bytes all
    is_alphanumeric check_allowed contains insert keys starts_with text_ltb canonical_payload
    canonical_payload_bytes derive_id fields_of insert_member jcs join member parse_content_ref
    tips_of allowed_payload_keys check_required is_version_hex kind_name required_payload_keys
    be_bytes derive_commit_id frame from_hex preimage salt_char advance make_commit make_version
    published_node_key content_sha256 new_with_recovery audit_key file_key is_audit_key is_file_key
    is_journal_key is_note_key note_key range_key
noting-new = refl

noting-id : noted_now.commit_id ≡ digits
unfolding commit_journal is_journal_kind sentinel_ok text_beq checked writable contains_key
    starts_journal seal commit_err validate salt_bytes structural salt_from_bytes all
    is_alphanumeric check_allowed keys contains insert lookup starts_with text_ltb canonical_payload
    canonical_payload_bytes derive_id fields_of insert_member jcs join member parse_content_ref
    tips_of allowed_payload_keys check_required is_version_hex kind_name required_payload_keys
    be_bytes derive_commit_id frame from_hex preimage salt_char advance make_commit make_version
    published_node_key content_sha256 new_with_recovery audit_key file_key is_audit_key is_file_key
    is_journal_key is_note_key note_key range_key
noting-id = refl

commit_link-anchored_example :
    (lookup linked.answer linked.new_state.links
      ≡ some (record {
        link_id = linked.answer;
        source = codes "note:A";
        target = codes "note:A";
        source_version = codes "A";
        target_version = codes "A";
        created_by = linked.commit_id;
      }))
    × (lookup linked.answer linked.new_state.link_pending ≡ some [])
    × (endpoint_ok (codes "note:A") && endpoint_ok (codes "note:A") ≡ true)
    × (contains_key (codes "note:A") noted.state.tips
          && contains_key (codes "note:A") noted.state.tips
        ≡ true)
    × ((id : Text) × Names noted (codes "note:A") (codes "A") id)
    × ((id : Text) × Names noted (codes "note:A") (codes "A") id)
commit_link-anchored_example =
    commit_link-anchored env granted noted (codes "note:A") (codes "note:A") (codes "A")
      (codes "note:A") (codes "A") (codes "same") linked linking-run new_link

noting-Writes : Writes env reader session.stored noted_now
noting-Writes = journal granted (codes "note:pending") note_init note_payload noted_now noting-run

some_id : noted_now.commit_id ≢ []
some_id e = absurd (ground (arith, noting-id, e))

Writes-log_example :
    (key : Text) × (root : Bool) × ((node : Text) (ids : List Text)
      → Chain session.stored (tip_of session.stored.state node) ids
      → Chain
          (published session.stored noted_now)
          (tip_of noted_now.new_state node)
          (if key == node then noted_now.commit_id ∷ (if root then [] else ids) else ids))
Writes-log_example = Writes-log session.stored noted_now env reader noting-Writes noting-new some_id

-- Another session on the store in which the note is written.
abbrev writer_later : Session
writer_later = record session { stored = published session.stored noted_now }

Writes-conflict_example : (check_expected world evidence (codes "json") writer_later).1 ≢ ok tt
Writes-conflict_example =
    Writes-conflict env reader world world session writer_later evidence (codes "json") noted_now
      noting-Writes (omega arith) unknown accepted refl unknown

abbrev started : Publication
started =
    outcome (commit_journal env granted empty_store (codes "note:pending") note_init note_payload)

starting-run :
    commit_journal env granted empty_store (codes "note:pending") note_init note_payload
    ≡ ok started
unfolding commit_journal is_journal_kind sentinel_ok text_beq checked writable contains_key
    starts_journal seal commit_err validate salt_bytes structural salt_from_bytes all
    is_alphanumeric check_allowed keys contains insert lookup starts_with text_ltb canonical_payload
    canonical_payload_bytes derive_id fields_of insert_member jcs join member parse_content_ref
    tips_of allowed_payload_keys check_required is_version_hex kind_name required_payload_keys
    be_bytes derive_commit_id frame from_hex preimage salt_char advance make_commit make_version
    published_node_key content_sha256 new_with_recovery audit_key file_key is_audit_key is_file_key
    is_journal_key is_note_key note_key range_key
starting-run = refl

starting-id : started.commit_id ≡ digits
unfolding commit_journal is_journal_kind sentinel_ok text_beq checked writable contains_key
    starts_journal seal commit_err validate salt_bytes structural salt_from_bytes all
    is_alphanumeric check_allowed keys contains insert lookup starts_with text_ltb canonical_payload
    canonical_payload_bytes derive_id fields_of insert_member jcs join member parse_content_ref
    tips_of allowed_payload_keys check_required is_version_hex kind_name required_payload_keys
    be_bytes derive_commit_id frame from_hex preimage salt_char advance make_commit make_version
    published_node_key content_sha256 new_with_recovery audit_key file_key is_audit_key is_file_key
    is_journal_key is_note_key note_key range_key
starting-id = refl

started_id : started.commit_id ≢ []
started_id e = absurd (ground (arith, starting-id, e))

nothing_yet : HasHistories empty_store
unfolding lookup
nothing_yet node = ([], start)

Reach-HasHistories_example : HasHistories (published empty_store started)
Reach-HasHistories_example =
    Reach-HasHistories env reader empty_store (published empty_store started) nothing_yet (
      then_publish empty_store started none_yet
        (journal granted (codes "note:pending") note_init note_payload started starting-run)
        (unfold lookup in refl) started_id)
