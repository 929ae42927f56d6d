-- ===== src/Records/Session/Tests.antt =====
-- Runs of the evidence checks on a session with one file.
use oh_my_document.Sources.Reference.Paths.{
  has_parent, leads_current, segments, validate_portable, validate_shared_path,
}
use oh_my_document.Sources.Reference.{is_object_id}
use oh_my_document.Relations.Node.{parent_in, parent_of}
use oh_my_document.Records.Version.{content_sha256, misplaced}
use oh_my_document.Records.Store.{read_commit}
use oh_my_document.Records.Session.{
  content_ref_from, current_acquisition, matches_version, read_binding, read_version,
  recover_from_git, recover_version_bytes, recovery_descriptor, source_path, source_version_id,
  validate_binding,
}
use oh_my_document.Records.Id.{from_hex}
use oh_my_document.Records.Commit.{
  allowed_payload_keys, check_allowed, check_required, is_alphanumeric, is_version_hex,
  required_payload_keys, salt_bytes, validate,
}
use oh_my_document.Prelude.{
  err, [], ◌∷◌, true, false, text_eq, text_beq, codes, none, some, ok, ◌≡◌, ◌↔◌, refl, all, any,
  contains, is_hexdigit, retain, starts_with, text_ltb,
}
use oh_my_document.Prelude.Equality.{option_beq, entry_beq, list_beq, map_beq}
use oh_my_document.Prelude.Maps.{contains_key, insert, keys, lookup}
use oh_my_document.Records.Session.Evidence.{
  Expected, validate_metadata_expected, check_expected, check_shape, check_source, check_sources,
  descriptor_beq, live_mapping_revision, mapped_revision, observed_content, only_mapping,
  placed_here, stamp,
}
use mathlib.Core.Option
use oh_my_document.Records.Session.Evidence.Current.{IsCurrent, validate_metadata_expected_iff}
use oh_my_document.Records.Session.Evidence.Fresh.{Sees, check_expected-IsFresh}
use oh_my_document.Records.Session.Identity.{
  require_identity, identity_diagnostic, map_same, mapping_diagnostic, placed_diagnostic,
  project_registration, registration_diagnostic, registration_id, remote_diagnostic, selected_here,
  url_known,
}
use oh_my_document.Records.Version.{SourceVersion}
use oh_my_document.Records.Pipeline.Source.{with_content}
use oh_my_document.Records.Session.Observe.{
  observe, bare, file_bytes, note_observed, observe_node, observe_nodes, unchanged_hash,
}
use oh_my_document.Records.Session.Observe.Accepted.{observe-check_expected}
use oh_my_document.Records.Session.{Session}
use oh_my_document.Records.Store.{conflict}
use oh_my_document.Records.Samples.{version, digits, short, fixed, session, world, evidence}

validate_metadata_expected_iff_example :
    (validate_metadata_expected world session evidence ≡ ok tt) ↔ IsCurrent world session evidence
validate_metadata_expected_iff_example = validate_metadata_expected_iff world session evidence

pub accepted : (check_expected world evidence (codes "json") session).1 ≡ ok tt
unfolding check_expected option_beq validate_metadata_expected text_beq live_mapping_revision
    map_beq list_beq entry_beq keys stamp check_sources check_source lookup source_version_id
    content_ref_from read_commit validate Option.bind all any contains retain contains_key insert
    is_hexdigit starts_with text_ltb allowed_payload_keys check_allowed check_required
    is_alphanumeric is_version_hex required_payload_keys from_hex check_shape descriptor_beq
    mapped_revision observed_content only_mapping placed_here current_acquisition matches_version
    read_binding read_version recover_from_git recovery_descriptor source_path validate_binding
    content_sha256 misplaced parent_in parent_of has_parent leads_current segments validate_portable
    validate_shared_path is_object_id recover_version_bytes oh_my_document.Records.Version.validate
    oh_my_document.Sources.Reference.validate salt_bytes require_identity identity_diagnostic
accepted = refl

pub unknown : option_beq session.validated_expected (some (codes "json")) ≡ false
unfolding option_beq
unknown = refl

listed : contains_key (codes "file:A") evidence.source_versions ≡ true
unfolding contains_key text_beq
listed = refl

check_expected-IsFresh_example :
    Sees world evidence session
      (check_expected world evidence (codes "json") session).0
      (codes "file:A")
check_expected-IsFresh_example =
    check_expected-IsFresh world evidence (codes "json") session (codes "file:A") unknown accepted
      listed

placed : live_mapping_revision world session ≡ ok none
unfolding live_mapping_revision
placed = refl

taken : observe world session (codes "i") none ≡ ok evidence
unfolding observe observe_nodes keys observe_node source_version_id content_ref_from lookup text_beq
    read_commit validate salt_bytes all is_alphanumeric is_version_hex from_hex check_allowed
    contains allowed_payload_keys Option.bind list_beq option_beq any retain contains_key insert
    is_hexdigit starts_with text_ltb check_required required_payload_keys descriptor_beq
    identity_diagnostic map_same mapping_diagnostic placed_diagnostic project_registration
    registration_diagnostic registration_id remote_diagnostic require_identity selected_here
    url_known bare file_bytes note_observed unchanged_hash current_acquisition read_version
    source_path content_sha256 misplaced parent_in parent_of has_parent leads_current segments
    validate_portable validate_shared_path is_object_id oh_my_document.Records.Version.validate
    oh_my_document.Sources.Reference.validate
taken = refl

identified : require_identity world session ≡ ok tt
unfolding require_identity identity_diagnostic any keys
identified = refl

recoverable : recover_version_bytes world session short ≡ ok (7 ∷ [])
unfolding recover_version_bytes read_version lookup text_beq oh_my_document.Records.Version.validate
    validate_portable oh_my_document.Sources.Reference.validate contains validate_shared_path
    starts_with any segments all is_hexdigit Option.bind matches_version content_sha256
recoverable = refl

observe-check_expected_example : (check_expected world evidence (codes "json") session).1 ≡ ok tt
observe-check_expected_example =
    observe-check_expected world session none evidence (codes "json") identified placed taken
      ((7 ∷ [], recoverable), tt)

-- The session has accepted evidence, and then evidence that names another acquisition.
abbrev accepted_before : Session
accepted_before = record session {
  observed_versions = (codes "file:A", version) ∷ [];
  observed_bytes = (codes "file:A", 7 ∷ []) ∷ [];
  validated_expected = some (codes "json");
}

abbrev torn : Expected
torn = record evidence { acquisition_versions = (codes "file:A", digits) ∷ [] }

stale : check_expected world torn (codes "torn") accepted_before ≡ (
  record accepted_before { observed_versions = []; observed_bytes = [] },
  err (conflict (codes "source/acquisition version for file:A differs")),
)
unfolding check_expected option_beq validate_metadata_expected text_beq live_mapping_revision
    map_beq list_beq entry_beq keys stamp check_sources check_source lookup source_version_id
    content_ref_from read_commit validate Option.bind all any contains retain contains_key insert
    is_hexdigit starts_with text_ltb allowed_payload_keys check_allowed check_required
    is_alphanumeric is_version_hex required_payload_keys from_hex check_shape descriptor_beq
    mapped_revision observed_content only_mapping placed_here current_acquisition matches_version
    read_binding read_version recover_from_git recovery_descriptor source_path validate_binding
    content_sha256 misplaced parent_in parent_of has_parent leads_current segments validate_portable
    validate_shared_path is_object_id recover_version_bytes oh_my_document.Records.Version.validate
    oh_my_document.Sources.Reference.validate salt_bytes require_identity identity_diagnostic
stale = refl

-- What was accepted first is still accepted, and its observations are gone.
accepted_again :
    check_expected world evidence
      (codes "json")
      (record accepted_before { observed_versions = []; observed_bytes = [] })
    ≡ (record accepted_before { observed_versions = []; observed_bytes = [] }, ok tt)
unfolding check_expected require_identity identity_diagnostic any keys option_beq text_beq
accepted_again = refl

-- The file with other content, which is stored as a new version.
abbrev changed : SourceVersion
changed = record version {
  id = codes "changed";
  sha256 = codes "00000000000000000000000000000000000000000000000000000000000000bb";
  content_file = none;
}

abbrev with_changed : Session
with_changed = record session {
  versions = insert (codes "changed") (with_content changed) session.versions;
  content =
      insert (codes "content/00000000000000000000000000000000000000000000000000000000000000bb")
        (8 ∷ []) session.content;
}
