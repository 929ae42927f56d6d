-- ===== src/Records/Session/Observe.antt =====
-- src/records/store.rs, `Expected::observe`: the evidence that a caller takes from a store.
mod Taken
pub mod Accepted
use oh_my_document.Prelude.{
  ℕ, Bool, true, false, not, List, [], ◌∷◌, Text, text_eq, Option, none, some, codes, Result, ok,
  err, ◌>>=◌, if◌then◌else◌, ◌==◌,
}
use mathlib.Core.Option
use oh_my_document.Prelude.Maps.{insert, keys}
use oh_my_document.Records.Id.{Bytes}
use oh_my_document.Records.Crates.{Crates}
use oh_my_document.Records.Version.{SourceVersion, content_sha256}
use oh_my_document.Records.Store.{StoreError}
use oh_my_document.Sources.Reference.{SourceDescriptor, file}
use oh_my_document.Records.Session.Identity.{require_identity}
use oh_my_document.Records.Session.{
  Session, World, source_version_id, read_version, current_acquisition,
}
use oh_my_document.Records.Session.Evidence.{Expected, descriptor_beq}

-- `Result::ok`.
abbrev pub to_option {ℓ} : {E A : Type ℓ} → Result E A → Option A
to_option (ok a) = some a
to_option (err e) = none

-- The bytes of a file. Commands are not run again, and a commit is not asked for.
unfoldable pub file_bytes : World → SourceDescriptor → Option Bytes
file_bytes world (file project path) = to_option (world.read_file (file project path))
file_bytes world _ = none

-- An observed version, with its hash, is put beside the basis of the node.
unfoldable pub note_observed : Text → Text × Option Text → Expected → Expected
note_observed node (id, none) exp = record exp {
  basis_versions = insert node id exp.basis_versions;
}
note_observed node (id, some hash) exp = record exp {
  basis_versions = insert node id exp.basis_versions;
  source_versions = insert node id exp.source_versions;
  acquisition_versions = insert node id exp.acquisition_versions;
  source_hashes = insert node hash exp.source_hashes;
}

module _ ⦃crates : Crates⦄ (world : World) (s : Session) where
  -- The hash of the source of a version, where the source is a file that still has that content.
  unfoldable pub unchanged_hash : (node : Text) → SourceVersion → Option Text
  unchanged_hash node version =
      Option.bind (current_acquisition s.stored.state node version) (λ acquisition.
        if not (descriptor_beq acquisition version.acquisition)
        then none
        else Option.bind (file_bytes world acquisition) (λ bytes.
          if content_sha256 bytes == version.sha256 then some (content_sha256 bytes) else none))

  -- One turn of the loop: the version that the tip of the node selects, and its hash.
  unfoldable pub observe_node : Text → Result StoreError (Option (Text × Option Text))
  observe_node node = source_version_id s.stored node >>= λ selected. ok (
      Option.map
        (λ (id : Text). (
          id,
          elim (require_identity world s) [
            | err _ ↦ none
            | ok _ ↦ Option.bind (to_option (read_version s id)) (unchanged_hash node)
          ],
        ))
        selected)

  unfoldable pub observe_nodes : List Text → Expected → Result StoreError Expected
  observe_nodes [] exp = ok exp
  observe_nodes (node ∷ nodes) exp = observe_node node >>= λ seen.
      observe_nodes nodes (elim seen [ none ↦ exp | some found ↦ note_observed node found exp ])

  -- The evidence before any node is observed.
  unfoldable pub bare : (context : Text) → (revision : Option ℕ) → Expected
  bare context revision = record {
    format = codes "omd.expected/4";
    instance_ = context;
    mapping_revision = revision;
    project_id = s.project_id;
    store_id = s.stored.state.store_id;
    publication = s.stored.state.publication;
    tips = s.stored.state.tips;
    basis_versions = [];
    source_versions = [];
    acquisition_versions = [];
    source_hashes = [];
    peer_registrations = s.stored.state.peers;
    peers = [];
    registrations = s.stored.state.registrations;
  }

  unfoldable pub observe : (context : Text) → (revision : Option ℕ) → Result StoreError Expected
  unfolding bare
  observe context revision = observe_nodes (keys s.stored.state.tips) (bare context revision)
