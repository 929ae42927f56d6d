-- ===== src/Records/Session/Acquire.antt =====
-- src/records/store.rs, `persist_observation`, `command_observation` and
-- `verify_exact_git_recovery`: observed sources and their versions. The session is the one that
-- `lock` leaves.
use oh_my_document.Prelude.{
  Bool, false, not, ◌&&◌, List, [], ◌∷◌, ◌++◌, Text, text_eq, Option, none, some, codes, Result, ok,
  ◌>>=◌, ◌>>◌, map_err, ok_or, refuse_if, if◌then◌else◌, ◌==◌,
}
use oh_my_document.Prelude.Equality.{option_beq}
use oh_my_document.Prelude.Maps.{Map, lookup, insert, contains_key}
use oh_my_document.Records.Id.{Bytes}
use oh_my_document.Records.Crates.{Crates}
use oh_my_document.Records.Version
use oh_my_document.Records.Version.{SourceVersion}
use oh_my_document.Records.Store.{StoreError, conflict, invalid_record}
use oh_my_document.Sources.Reference.{command}
use oh_my_document.Records.Session.{
  Session, World, is_git, matches_version, read_version, recovery_descriptor,
}
use oh_my_document.Records.Session.Identity.{about}
use oh_my_document.Records.Session.Evidence.{Expected, descriptor_beq, require_source_expected}
use oh_my_document.Records.Pipeline.Source.{with_content}

-- Equal in `reuse_key` and in the encoding. The debug form of a descriptor tells it from any other.
unfoldable pub same_source : SourceVersion → SourceVersion → Bool
same_source a b =
    descriptor_beq a.acquisition b.acquisition
    && (a.sha256 == b.sha256 && option_beq a.encoding b.encoding)

-- The first of the stored versions that can be used again, here in the order of their ids.
unfoldable pub find_version : SourceVersion → Map SourceVersion → Option SourceVersion
find_version version [] = none
find_version version ((id, old) ∷ versions) =
    let rest = find_version version versions in if same_source old version then some old else rest

module _ ⦃crates : Crates⦄ (world : World) where
  -- The content of a hash that is there stays. A version of this id that had the same text would
  -- have been used again.
  unfoldable pub store_version :
      SourceVersion → Bytes → Session → Result StoreError (SourceVersion × Session)
  store_version stored bytes s =
      let id = crates.hex_encode stored.id in
      let path = codes "content/" ++ stored.sha256 in
      refuse_if (contains_key id s.versions)
        (invalid_record (about (codes "immutable record exists: versions/") id (codes ".toml")))
      >> ok (
        stored,
        record s {
          versions = insert id stored s.versions;
          content = if contains_key path s.content then s.content else insert path bytes s.content;
        },
      )

  unfoldable pub persist_observation :
      SourceVersion → Bytes → Session → Result StoreError (SourceVersion × Session)
  persist_observation version bytes s =
      map_err (λ _. invalid_record (codes "version")) (Version.validate version)
      >> (world.locked >> elim (find_version version s.versions) [
        | some old ↦ ok (old, s)
        | none ↦ store_version (with_content version) bytes s
      ])

  unfoldable pub command_observation :
      Session → Expected → (node executable : Text) → (args : List Text) → Result StoreError Bytes
  command_observation s exp node executable args = do
    require_source_expected s exp node
    id ←
        ok_or (lookup node exp.acquisition_versions) (
          conflict
            (about (codes "successful command observation for ") node (codes " is required")))
    version ← read_version s id
    refuse_if (not (descriptor_beq version.acquisition (command executable args)))
        (conflict (about (codes "command acquisition for ") node (codes " changed")))
    ok_or (lookup node s.observed_bytes)
        (conflict (about (codes "successful command observation for ") node (codes " is required")))

  unfoldable pub verify_exact_git_recovery : Session → SourceVersion → Result StoreError Bool
  verify_exact_git_recovery s version = recovery_descriptor s version >>= λ recovery.
      let collected =
        (ok_or s.config_cwd
            (conflict (codes "source recovery requires machine-local configuration"))
          >>= (λ _.
              ok_or s.project_root
                (conflict (codes "source recovery requires selected project root")))
          >>= (λ _. ok (elim (world.git_bytes recovery) [
            | none ↦ false
            | some bytes ↦ matches_version version bytes
          ]))) in
      if not (is_git recovery) then ok false else collected
