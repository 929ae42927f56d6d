-- ===== src/Records/Session/Changes/Tests.antt =====
-- Runs of the changes of a store: a binding, a registration, an activated copy.
use mathlib.Core.Option
use oh_my_document.Sources.Reference.Paths.{
  has_parent, leads_current, segments, validate_portable, validate_shared_path,
}
use oh_my_document.Relations.Node.{parent_in, parent_of}
use oh_my_document.Records.Version.{content_sha256, misplaced}
use oh_my_document.Records.Session.Evidence.{
  check_expected, check_shape, check_source, check_sources, descriptor_beq, live_mapping_revision,
  mapped_revision, observed_content, only_mapping, placed_here, stamp, validate_metadata_expected,
}
use oh_my_document.Records.Id.{from_hex}
use oh_my_document.Records.Commit.{
  allowed_payload_keys, check_allowed, check_required, is_alphanumeric, is_version_hex,
  required_payload_keys, salt_bytes,
}
use oh_my_document.Prelude.Equality.{entry_beq, list_beq, map_beq, option_beq}
use oh_my_document.Prelude.{
  ◌+◌, ◌%◌, u64_mod, true, false, [], ◌∷◌, Text, text_eq, text_beq, none, codes, Result, ok, err,
  ◌≡◌, ◌≢◌, refl, arith, all, any, contains, is_hexdigit, retain, starts_with, text_ltb,
}
use oh_my_document.Prelude.Maps.{lookup, contains_key, insert, keys}
use oh_my_document.Records.Store.{StoreError, invalid_record, read_commit}
use oh_my_document.Sources.Reference.{file, is_object_id}
use oh_my_document.Records.Session.{
  Session, World, Binding, content_ref_from, current_acquisition, matches_version, read_binding,
  read_version, recover_from_git, recover_version_bytes, recovery_descriptor, source_path,
  source_version_id, validate_binding,
}
use oh_my_document.Records.Session.Identity.{
  has_write_authority, project_registration, authority_for, authority_matches, identity_diagnostic,
  is_single, map_same, mapping_diagnostic, placed_diagnostic, registration_diagnostic,
  registration_id, remote_diagnostic, require_identity, require_write_authority, selected_here,
  url_known,
}
use oh_my_document.Records.Session.Changes.{
  publish_binding, register_project, set_state, add_binding, add_registration, bind_checked,
  current_registration, register_anew, remote_ok,
}
use oh_my_document.Records.Session.Changes.Copy.{
  publish_copy_activation, activated_state, activation_current, check_registrations, valid_identity,
}
use oh_my_document.Records.Session.Changes.Bound.{Binds, publish_binding-read_binding}
use oh_my_document.Records.Session.Changes.Registered.{
  Registers, register_project-project_registration,
}
use oh_my_document.Records.Session.Changes.Activated.{publish_copy_activation-authority}
use oh_my_document.Records.Samples.{fixed, session, world, evidence, short, digits}

abbrev writer : Session
writer = record session {
  stored = record session.stored { state = record session.stored.state { activated = true } };
  initialized_here = true;
}

abbrev binding : Binding
binding = record {
  format = codes "omd.binding/2";
  id = short;
  version_id = short;
  recovery = file (codes "root") (codes "a.md");
  seq = 1;
  affected = digits ∷ [];
}

bound : (publish_binding world evidence (codes "json") binding writer).1 ≡ ok tt
unfolding publish_binding require_write_authority require_identity identity_diagnostic any keys
    has_write_authority bind_checked check_expected option_beq validate_metadata_expected text_beq
    live_mapping_revision map_beq list_beq entry_beq stamp check_sources Option.bind all contains
    retain contains_key insert lookup is_hexdigit starts_with text_ltb allowed_payload_keys
    check_allowed check_required is_alphanumeric is_version_hex required_payload_keys salt_bytes
    oh_my_document.Records.Commit.validate from_hex add_binding set_state check_shape check_source
    descriptor_beq mapped_revision observed_content only_mapping placed_here authority_for
    authority_matches is_single map_same mapping_diagnostic placed_diagnostic project_registration
    registration_diagnostic registration_id remote_diagnostic selected_here url_known
    content_ref_from current_acquisition matches_version read_binding read_version recover_from_git
    recover_version_bytes recovery_descriptor source_path source_version_id validate_binding
    read_commit content_sha256 misplaced oh_my_document.Records.Version.validate parent_in parent_of
    has_parent leads_current segments validate_portable validate_shared_path is_object_id
    oh_my_document.Sources.Reference.validate
bound = refl

publish_binding-read_binding_example :
    Binds world writer binding (publish_binding world evidence (codes "json") binding writer).0
publish_binding-read_binding_example =
    publish_binding-read_binding world evidence (codes "json") binding writer bound

unregistered :
    project_registration world session (codes "main")
    ≡ err (invalid_record (codes "project alias is not registered: main"))
unfolding project_registration lookup
unregistered = refl

abbrev registering : Result StoreError (Text × Session)
registering = register_project world (codes "main") none evidence session

abbrev outcome : Result StoreError (Text × Session) → Text × Session
outcome (ok made) = made
outcome (err e) = ([], session)

registering-run : registering ≡ ok (digits, (outcome registering).1)
unfolding register_project text_beq remote_ok validate_metadata_expected live_mapping_revision
    option_beq map_beq list_beq entry_beq current_registration contains_key register_anew
    add_registration registration_id
registering-run = refl

register_project-project_registration_example :
    Registers world (codes "main") none digits (outcome registering).1
register_project-project_registration_example =
    register_project-project_registration world (codes "main") none evidence session
      (outcome registering).1 digits (λ r e. absurd (ground (arith, unregistered, e)))
      registering-run

-- A machine with an authority for the store that the copy becomes.
abbrev authorized : World
authorized = record world {
  authorities = ok (
      record {
        project_id = codes "p";
        store_id = short;
        project_root = codes "/p";
        metadata_root = codes "/m";
        revision = 1;
      }
      ∷ []);
}

abbrev copied : Session
copied = set_state (activated_state session short []) session

activating-run : publish_copy_activation authorized evidence short [] session ≡ ok copied
unfolding publish_copy_activation activation_current text_beq option_beq map_beq list_beq entry_beq
    has_write_authority valid_identity all keys check_registrations authority_matches is_single
    retain authority_for
activating-run = refl

publish_copy_activation-authority_example :
    (copied.stored.state ≡ record session.stored.state {
      store_id = short;
      registrations = [];
      activated = true;
      publication = (session.stored.state.publication + 1) % u64_mod;
    })
    × (copied.stored.commits ≡ session.stored.commits)
    × (has_write_authority authorized session ≡ false)
    × (short ≢ session.stored.state.store_id)
    × (has_write_authority authorized copied ≡ true)
publish_copy_activation-authority_example =
    publish_copy_activation-authority authorized evidence short [] session copied activating-run
