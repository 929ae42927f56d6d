-- ===== src/Records/Session/Evidence.antt =====
-- src/records/store.rs, `Expected` and its checks: what a caller has observed must still hold.
-- The session is the one that `lock` leaves.
pub mod Current
pub mod Observed
pub mod Fresh
use oh_my_document.Prelude.{
  ℕ, Bool, true, false, not, ◌&&◌, ◌||◌, List, [], ◌∷◌, ◌++◌, retain, contains, Text, text_eq,
  nat_eq, Option, none, some, is_some, is_none, codes, Result, ok, err, ◌>>=◌, ◌>>◌, map_err, ok_or,
  refuse_if, if◌then◌else◌, ◌==◌, is_empty,
}
use oh_my_document.Prelude.Equality.{map_beq, option_beq, list_beq}
use oh_my_document.Prelude.Maps.{Map, lookup, insert, contains_key, keys}
use oh_my_document.Records.Id.{Bytes}
use oh_my_document.Records.Crates.{Crates}
use oh_my_document.Records.Version.{SourceVersion, content_sha256}
use oh_my_document.Records.Store.{StoreError, conflict, io}
use oh_my_document.Sources.Reference.{SourceDescriptor, file, command, git}
use oh_my_document.Records.Session.Identity.{about, require_identity}
use oh_my_document.Records.Session.{
  Session, World, ProjectMap, source_version_id, read_version, current_acquisition,
  recover_version_bytes,
}

pub record PeerExpected : Type 0 where
  pub instance_ : Text
  pub mapping_revision : ℕ
  pub project_id : Text
  pub store_id : Text
  pub publication : ℕ
  pub tips : Map Text
  pub registrations : Map Text
  pub peers : Map Text

pub record Expected : Type 0 where
  pub format : Text
  pub instance_ : Text
  pub mapping_revision : Option ℕ
  pub project_id : Text
  pub store_id : Text
  pub publication : ℕ
  pub tips : Map Text
  pub basis_versions : Map Text
  pub source_versions : Map Text
  pub acquisition_versions : Map Text
  pub source_hashes : Map Text
  pub peer_registrations : Map Text
  pub peers : Map PeerExpected
  pub registrations : Map Text

-- `acquisition == other`.
unfoldable pub descriptor_beq : SourceDescriptor → SourceDescriptor → Bool
descriptor_beq (file project path) (file project' path') = project == project' && path == path'
descriptor_beq (command executable args) (command executable' args') =
    executable == executable' && list_beq args args'
descriptor_beq (git project commit path) (git project' commit' path') =
    project == project' && (commit == commit' && path == path')
descriptor_beq _ _ = false

-- The mappings of this alias, project and store.
unfoldable pub placed_here : Session → Text → ProjectMap → Bool
placed_here s alias map =
    map.alias == alias
    && (map.project_id == s.project_id && map.store_id == s.stored.state.store_id)

-- `let [mapping] = matching.as_slice() else { … }`.
unfoldable pub only_mapping : (alias : Text) → List ProjectMap → Result StoreError ProjectMap
only_mapping alias [] =
    err (conflict (about (codes "project mapping ") alias (codes " is missing")))
only_mapping alias (map ∷ []) = ok map
only_mapping alias (_ ∷ _ ∷ _) =
    err (conflict (about (codes "project mapping ") alias (codes " is ambiguous")))

unfoldable pub mapped_revision : World → Session → Text → Result StoreError (Option ℕ)
mapped_revision world s alias = do
  maps ←
      map_err (λ _. conflict (about (codes "project mapping ") alias (codes " unreadable")))
        world.mappings
  mapping ← only_mapping alias (retain (placed_here s alias) maps)
  refuse_if (not (mapping.metadata_root == s.metadata_root) && world.exists mapping.metadata_root) (
      conflict
        (about (codes "project mapping ") alias (codes " points to a different live location")))
  ok (some mapping.revision)

-- `match (config_cwd, project_root, context_alias)`.
unfoldable pub live_mapping_revision : World → Session → Result StoreError (Option ℕ)
live_mapping_revision world s =
    if is_some s.config_cwd && is_some s.project_root
    then elim s.context_alias [
      | some alias ↦ mapped_revision world s alias
      | none ↦
          if is_none s.mapping_revision
          then ok none
          else err (conflict (codes "project mapping context is incomplete"))
    ]
    else err (conflict (codes "project mapping context is incomplete"))

unfoldable pub validate_metadata_expected :
    World → Session → Expected → Result StoreError (Unit {0})
validate_metadata_expected world s exp = do
  refuse_if (not (exp.format == codes "omd.expected/4"))
      (conflict (about (codes "unsupported expected evidence format '") exp.format (codes "'")))
  refuse_if (not (exp.instance_ == s.context_instance))
      (conflict (codes "selected project/store instance changed"))
  live ← live_mapping_revision world s
  refuse_if (not (option_beq exp.mapping_revision live))
      (conflict (codes "project mapping revision changed"))
  refuse_if (not (exp.project_id == s.project_id) || not (exp.store_id == s.stored.state.store_id))
      (conflict (codes "project/store identity changed"))
  refuse_if (not (exp.publication == s.stored.state.publication))
      (conflict (codes "publication is not the current one"))
  refuse_if (not (map_beq exp.tips s.stored.state.tips))
      (conflict (codes "tip evidence is incomplete or changed"))
  refuse_if (not (map_beq exp.registrations s.stored.state.registrations))
      (conflict (codes "registration evidence is incomplete or changed"))
  refuse_if (not (map_beq exp.peer_registrations s.stored.state.peers))
      (conflict (codes "peer registration evidence is incomplete or changed"))
  ok tt

module _ ⦃crates : Crates⦄ where
  unfoldable pub require_source_expected : Session → Expected → Text → Result StoreError (Unit {0})
  require_source_expected s exp node = source_version_id s.stored node >>= λ id.
      refuse_if
        (is_some id
          && (not (contains_key node exp.basis_versions)
              || (not (contains_key node exp.source_versions)
                  || (not (contains_key node exp.acquisition_versions)
                      || (not (contains_key node exp.source_hashes)
                          || not (contains_key node s.observed_bytes))))))
        (conflict (about (codes "successful source observation for ") node (codes " is required")))

  module _ (world : World) (exp : Expected) where
    -- The bytes behind an observation: those of the file as it is, or those that were stored.
    unfoldable pub observed_content : Session → SourceDescriptor → Text → Result StoreError Bytes
    observed_content s (file project path) hash = world.read_file (file project path)
    observed_content s (command executable args) hash =
        ok_or (lookup (codes "content/" ++ hash) s.content) io
    observed_content s (git project commit path) hash =
        ok_or (lookup (codes "content/" ++ hash) s.content) io

    -- One turn of the loop over the observed source versions.
    unfoldable pub check_source :
        Session → (node observed_id : Text) → Result StoreError (SourceVersion × Bytes)
    check_source s node observed_id = do
      basis_id ←
          ok_or (lookup node exp.basis_versions)
            (conflict (about (codes "source basis for ") node (codes " missing")))
      selected ← source_version_id s.stored node
      refuse_if (not (option_beq selected (some basis_id)))
          (conflict (about (codes "source basis for ") node (codes " changed")))
      acquisition_id ←
          ok_or (lookup node exp.acquisition_versions)
            (conflict (about (codes "acquisition version for ") node (codes " missing")))
      refuse_if (not (acquisition_id == observed_id))
          (conflict (about (codes "source/acquisition version for ") node (codes " differs")))
      basis ← read_version s basis_id
      observed ← read_version s observed_id
      refuse_if
          (not (crates.hex_encode basis.id == basis_id)
            || not (crates.hex_encode observed.id == observed_id))
          (conflict
            (about (codes "source version record for ") node (codes " has inconsistent identity")))
      current ←
          ok_or (current_acquisition s.stored.state node basis)
            (conflict (about (codes "current source for ") node (codes " is unavailable")))
      refuse_if (not (descriptor_beq current observed.acquisition))
          (conflict (about (codes "source observation definition for ") node (codes " changed")))
      _ ←
          map_err (λ _. conflict (about (codes "source basis for ") node (codes " is invalid")))
            (recover_version_bytes world s basis_id)
      hash ←
          ok_or (lookup node exp.source_hashes)
            (conflict (about (codes "source hash for ") node (codes " missing")))
      bytes ← observed_content s observed.acquisition hash
      refuse_if (not (observed.sha256 == hash) || not (content_sha256 bytes == hash))
          (conflict (about (codes "source observation tuple for ") node (codes " is inconsistent")))
      ok (observed, bytes)

    -- The loop, with what it has observed so far. What was observed stays, also where it stops.
    unfoldable pub check_sources :
        Session → Map Text → Session → Session × Result StoreError (Unit {0})
    check_sources s [] seen = (seen, ok tt)
    check_sources s ((node, observed_id) ∷ rest) seen = elim (check_source s node observed_id) [
      | err e ↦ (seen, err e)
      | ok (observed, bytes) ↦ check_sources s rest (record seen {
        observed_versions = insert node observed seen.observed_versions;
        observed_bytes = insert node bytes seen.observed_bytes;
      })
    ]

    -- What is checked before any source is.
    unfoldable pub check_shape : Session → Result StoreError (Unit {0})
    check_shape s =
        validate_metadata_expected world s exp
        >> refuse_if
            (not (list_beq (keys exp.acquisition_versions) (keys exp.source_versions))
              || not (list_beq (keys exp.acquisition_versions) (keys exp.source_hashes)))
            (conflict (codes "successful source evidence is incomplete"))

    unfoldable pub stamp :
        (fingerprint : Text)
        → Session × Result StoreError (Unit {0})
        → Session × Result StoreError (Unit {0})
    stamp fingerprint (seen, ok _) = (record seen { validated_expected = some fingerprint }, ok tt)
    stamp fingerprint (seen, err e) = (seen, err e)

    -- `fingerprint` is `serde_json::to_string(exp)`.
    unfoldable pub check_expected :
        (fingerprint : Text) → Session → Session × Result StoreError (Unit {0})
    unfolding check_shape
    check_expected fingerprint s = elim (require_identity world s) [
      | err e ↦ (s, err e)
      | ok _ ↦
          if option_beq s.validated_expected (some fingerprint)
          then (s, ok tt)
          else elim (check_shape s) [
            | err e ↦ (s, err e)
            | ok _ ↦ stamp fingerprint (
                check_sources s exp.source_versions
                  (record s { observed_versions = []; observed_bytes = [] }))
          ]
    ]
