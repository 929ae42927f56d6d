-- ===== src/Records/Session.antt =====
-- src/records/store.rs, the struct `Store` and its reads: a store in use, with its context.
pub mod Identity
pub mod Evidence
pub mod Observe
pub mod Changes
pub mod Index
pub mod Acquire
pub mod Tests
use oh_my_document.Prelude.{
  ℕ, zero, suc, Bool, true, false, not, ◌&&◌, ◌||◌, List, [], ◌∷◌, ◌++◌, Text, text_eq, nat_eq,
  Option, none, some, codes, Result, ok, err, ◌>>=◌, ◌>>◌, map_err, ok_or, refuse_if, is_empty,
  if◌then◌else◌, ◌==◌, unwrap_or, length, or_option, all, any, is_hexdigit,
}
use mathlib.Core.Option
use oh_my_document.Prelude.Maps.{Map, lookup}
use oh_my_document.Records.Id.{Bytes}
use oh_my_document.Records.Crates.{Crates}
use oh_my_document.Records.Commit.{Commit}
use oh_my_document.Records.Version
use oh_my_document.Records.Version.{SourceVersion, content_sha256}
use oh_my_document.Records.Store.{
  State, Store, StoreError, conflict, invalid_record, io, read_commit,
}
use oh_my_document.Sources.{SourceError}
use oh_my_document.Sources.Reference.{SourceDescriptor, file, command, git}
use oh_my_document.Sources.Reference.Paths.{validate_portable}
use oh_my_document.Relations.Node.{parent_of}

-- A machine-local placement (src/sources/projects.rs).
pub record ProjectMap : Type 0 where
  pub alias : Text
  pub project_id : Text
  pub store_id : Text
  pub project_root : Text
  pub metadata_root : Text
  pub recognized_remote_urls : List Text
  pub recognized_registration : Option Text
  pub revision : ℕ

-- The directory that may write a store (src/sources/projects.rs).
pub record AuthorityMap : Type 0 where
  pub project_id : Text
  pub store_id : Text
  pub project_root : Text
  pub metadata_root : Text
  pub revision : ℕ

-- src/records/registration.rs.
pub record RemoteIdentity : Type 0 where
  pub name : Text
  pub url : Text

pub record ProjectRegistration : Type 0 where
  pub format : Text
  pub alias : Text
  pub project_id : Text
  pub store_id : Text
  pub revision : ℕ
  pub remote : Option RemoteIdentity

pub record Binding : Type 0 where
  pub format : Text
  pub id : Text
  pub version_id : Text
  pub recovery : SourceDescriptor
  pub seq : ℕ
  pub affected : List Text

-- The parsed files below `versions/`, `bindings/` and `registrations/` by their ids, and those below the root by
-- their paths, stand beside the state and the commits.
pub record Session : Type 0 where
  pub stored : Store
  pub versions : Map SourceVersion
  pub bindings : Map Binding
  pub registered : Map ProjectRegistration
  pub content : Map Bytes
  pub project_id : Text
  pub context_instance : Text
  pub mapping_revision : Option ℕ
  pub project_root : Option Text
  pub metadata_root : Text
  pub context_alias : Option Text
  pub recognized_remote_urls : List Text
  pub config_cwd : Option Text
  pub observed_versions : Map SourceVersion
  pub observed_bytes : Map Bytes
  pub validated_expected : Option Text
  pub initialized_here : Bool

-- The machine: the lock, `projects::load` and the authorities that it has, `fs::canonicalize`,
-- `exists`, a tracked file that is resolved and read, and the bytes that `sources::collect` gets from
-- a Git descriptor. `remote_url` is the one URL that git has configured for a remote, or the message
-- that `identity_diagnostic` gives in its place. `registration_text` is `toml::to_string`.
pub record World : Type 0 where
  pub locked : Result StoreError (Unit {0})
  pub mappings : Result Text (List ProjectMap)
  pub authorities : Result Text (List AuthorityMap)
  pub canonical : Text → Result Text Text
  pub exists : Text → Bool
  pub read_file : SourceDescriptor → Result StoreError Bytes
  pub git_bytes : SourceDescriptor → Option Bytes
  pub remote_url : (project_root name : Text) → Result Text Text
  pub registration_text : ProjectRegistration → Bytes

abbrev is_hex_of : ℕ → Text → Bool
is_hex_of size s = length s == size && all is_hexdigit s

-- `Binding::validate`.
unfoldable pub validate_binding : Binding → Text → Text → Result StoreError (Unit {0})
validate_binding b expected_id expected_version = do
  refuse_if (not (b.format == codes "omd.binding/2"))
      (invalid_record (codes "unsupported binding format"))
  refuse_if
      (not (b.id == expected_id)
        || (not (b.version_id == expected_version)
            || (b.seq == 0
                || (not (is_hex_of 32 b.id)
                    || (not (is_hex_of 32 b.version_id)
                        || (is_empty b.affected || any (λ c. not (is_hex_of 64 c)) b.affected))))))
      (invalid_record (codes "binding identity/version/sequence is inconsistent"))
  map_err (λ _. invalid_record (codes "binding recovery")) (validate_portable b.recovery)
  ok tt

-- The location of a file, or of the file that a range hangs on.
unfoldable pub source_path : State → Text → Option Text
source_path state node =
    or_option (lookup node state.locations)
      (Option.bind (parent_of state node) (λ parent. lookup parent state.locations))

unfoldable pub current_acquisition : State → Text → SourceVersion → Option SourceDescriptor
current_acquisition state node version = elim version.acquisition [
  | file _ _ ↦ Option.map (λ path. file (codes "root") path) (source_path state node)
  | command executable args ↦ some (command executable args)
  | git project commit path ↦ some (git project commit path)
]

abbrev pub is_git : SourceDescriptor → Bool
is_git (git project commit path) = true
is_git _ = false

abbrev pub guard_turns : ℕ
guard_turns = 100000

module _ ⦃crates : Crates⦄ where
  -- The `while` loop of `source_version_id`: the first reference to content on the way back.
  unfoldable pub content_ref_from : Store → ℕ → Text → Result StoreError (Option Text)
  content_ref_from s zero current = ok none
  content_ref_from s (suc turns) current =
      if is_empty current
      then ok none
      else (read_commit s current >>= λ c.
          let rest = content_ref_from s turns c.previous_id in
          if not (c.content_ref == codes "empty") then ok (some c.content_ref) else rest)

  unfoldable pub source_version_id : Store → Text → Result StoreError (Option Text)
  source_version_id s node =
      content_ref_from s guard_turns (unwrap_or (lookup node s.state.tips) [])

  unfoldable pub read_version : Session → Text → Result StoreError SourceVersion
  read_version s id = do
    version ← ok_or (lookup id s.versions) io
    map_err (λ _. invalid_record (codes "version")) (Version.validate version)
    refuse_if (not (crates.hex_encode version.id == id))
        (invalid_record (codes "source version identity mismatch"))
    ok version

  unfoldable pub read_binding : Session → Text → Result StoreError (Option Binding)
  read_binding s version_id = elim (lookup version_id s.stored.state.bindings) [
    | none ↦ ok none
    | some id ↦ ok_or (lookup id s.bindings) io >>= λ b.
        validate_binding b id version_id >>= λ _. ok (some b)
  ]

  unfoldable pub recovery_descriptor : Session → SourceVersion → Result StoreError SourceDescriptor
  recovery_descriptor s version = read_binding s (crates.hex_encode version.id) >>= λ b.
      ok (elim b [ some binding ↦ binding.recovery | none ↦ version.recovery ])

  -- The bytes are those of the version: of its length, and with its hash.
  unfoldable pub matches_version : SourceVersion → Bytes → Bool
  matches_version version bytes =
      length bytes == version.byte_count && content_sha256 bytes == version.sha256

  unfoldable pub recover_from_git : World → Session → Text → SourceVersion → Result StoreError Bytes
  recover_from_git world s version_id version = do
    recovery ← recovery_descriptor s version
    refuse_if (not (is_git recovery)) (
        invalid_record (
          codes "source version "
          ++ (version_id ++ codes " has no non-executing complete recovery")))
    _ ← ok_or s.config_cwd (conflict (codes "source recovery requires machine-local configuration"))
    _ ← ok_or s.project_root (conflict (codes "source recovery requires selected project root"))
    bytes ← ok_or (world.git_bytes recovery) (invalid_record (codes "git"))
    refuse_if (not (matches_version version bytes)) (
        invalid_record (
          codes "recovered source for "
          ++ (version_id ++ codes " differs from recorded complete content")))
    ok bytes

  -- A file that cannot be read for another reason than its absence is not modelled.
  unfoldable pub recover_version_bytes : World → Session → Text → Result StoreError Bytes
  recover_version_bytes world s version_id = read_version s version_id >>= λ version.
      let from_git = recover_from_git world s version_id version in
      elim (Option.bind version.content_file (λ path. lookup path s.content)) [
        | none ↦ from_git
        | some bytes ↦
            if not (matches_version version bytes)
            then err (
                invalid_record (
                  codes "source content for "
                  ++ (version_id ++ codes " does not match its complete version")))
            else ok bytes
      ]
