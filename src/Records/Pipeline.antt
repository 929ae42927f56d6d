-- ===== src/Records/Pipeline.antt =====
-- src/records/pipeline.rs: what the commands that write records have in common.
pub mod Grows
pub mod Marker
pub mod Lifecycle
pub mod Links
pub mod Journal
pub mod Source
mod Sourced
pub mod Log
mod Conflict
mod Effects
mod Pending
mod Owed
mod Tests
use oh_my_document.Prelude.{
  ℕ, zero, suc, ◌+◌, ◌%◌, u64_mod, Bool, true, false, not, ◌&&◌, ◌||◌, List, [], ◌∷◌, ◌++◌, Text,
  text_eq, Option, none, some, codes, Result, ok, err, ◌>>=◌, ◌>>◌, map_err, ok_or, refuse_if,
  if◌then◌else◌, ◌==◌, strip_prefix, unwrap_or, is_some,
}
use mathlib.Core.Option
use oh_my_document.Prelude.Maps.{Map, lookup, insert, contains_key}
use oh_my_document.Records.Json.{Value, string, Payload, as_str}
use oh_my_document.Records.Id.{Bytes, salt_from_bytes}
use oh_my_document.Records.Commit.{
  Commit, CommitKind, CommitError, init, import, rename, delete, validate,
}
use oh_my_document.Records.Crates.{Crates}
use oh_my_document.Records.Canonical.{derive_id}
use oh_my_document.Records.Version.{SourceVersion, new_with_recovery}
use oh_my_document.Records.Store.{State, Store, StoreError, read_commit}
use oh_my_document.Sources.{SourceError}
use oh_my_document.Sources.Reference.{SourceDescriptor, file}
use oh_my_document.Relations.Identity.{RefError}
use oh_my_document.Relations.Identity.Ancestry.{payload_text}
use oh_my_document.Relations.Node.{
  is_file_key, file_key, range_key, audit_key, note_key, is_range_key,
}

pub data PipelineError : Type 0 where
  source : SourceError → PipelineError
  store : StoreError → PipelineError
  input commit : Text → PipelineError

-- What a command takes from outside: `serde_json::to_string` and the bytes of texts, the bytes
-- that each call of the generator fills in, the formatted time, and the texts of errors.
pub record Env : Type 0 where
  pub quote : Text → Bytes
  pub utf8 : Text → Bytes
  pub fill : ℕ → Bytes
  pub timestamp : Text
  pub commit_error_text : CommitError → Text
  pub ref_error_text : RefError → Text

-- What `lock`, `require_write_authority` and `check_expected` answer. The store that a command
-- is given is the one that `lock` has read.
pub record Gate : Type 0 where
  pub locked : Result StoreError (Unit {0})
  pub authority : Result StoreError (Unit {0})
  pub expected : Result StoreError (Unit {0})

-- What is handed to `publish`, and what the command returns after it.
pub record Publication : Type 0 where
  pub record_ : Commit
  pub commit_id : Text
  pub version : Option SourceVersion
  pub content : Option Bytes
  pub new_state : State
  pub answer : Text

unfoldable pub writable : Gate → Result PipelineError (Unit {0})
writable gate = map_err store gate.locked >> map_err store gate.authority

unfoldable pub checked : Gate → Result PipelineError (Unit {0})
checked gate = writable gate >> map_err store gate.expected

abbrev pub is_init : CommitKind → Bool
is_init init = true
is_init _ = false

abbrev pub is_import : CommitKind → Bool
is_import import = true
is_import _ = false

abbrev pub is_rename : CommitKind → Bool
is_rename rename = true
is_rename _ = false

abbrev pub is_delete : CommitKind → Bool
is_delete delete = true
is_delete _ = false

abbrev pub tip_of : State → Text → Text
tip_of state node = unwrap_or (lookup node state.tips) []

-- `entry(key).or_default().push(value)`.
unfoldable pub push_to : Text → Text → Map (List Text) → Map (List Text)
push_to k x m = insert k (unwrap_or (lookup k m) [] ++ x ∷ []) m

unfoldable pub published_node_key : Text → Bool → Text → Text
published_node_key locator is_first commit_id =
    if is_first && is_file_key locator
    then file_key commit_id
    else if is_first && locator == codes "range:pending"
    then range_key commit_id
    else if is_first && locator == codes "audit:pending"
    then audit_key commit_id
    else if is_first && locator == codes "note:pending"
    then note_key commit_id
    else locator

-- The first changes of every new state: the marker of the publication, the tip, the retained id.
unfoldable pub advance : Text → Text → State → State
advance key commit_id state = record state {
  publication = (state.publication + 1) % u64_mod;
  tips = insert key commit_id state.tips;
  retained = state.retained ++ commit_id ∷ [];
}

-- The tips of the children that have one.
unfoldable pub tips_from : State → List Text → Map Text → Map Text
tips_from state [] tips = tips
tips_from state (child ∷ children) tips =
    tips_from state children
      (elim (lookup child state.tips) [ some tip ↦ insert child tip tips | none ↦ tips ])

-- A later record of a file holds the tips of its ranges.
unfoldable pub range_tips_of : State → Text → Bool → Map Text
range_tips_of state node_key is_first =
    if is_file_key node_key && not is_first
    then tips_from state (unwrap_or (lookup node_key state.mounts) []) []
    else []

module _ ⦃crates : Crates⦄ where
  -- The body of `object_at_path_in`, over the locations.
  unfoldable pub object_in : Store → Map Text → Text → Bool → Option Text
  object_in s [] path statistics = none
  object_in s ((node, current) ∷ locations) path statistics =
      let rest = object_in s locations path statistics in
      elim (strip_prefix (codes "file:") node) [
        | none ↦ rest
        | some root ↦ elim (read_commit s root) [
          | err _ ↦ rest
          | ok c ↦
              if current == path
                && (if statistics then is_import c.kind else not (is_import c.kind))
              then some node
              else rest
        ]
      ]

  unfoldable pub object_at_path : Store → Text → Bool → Option Text
  object_at_path s path statistics = object_in s s.state.locations path statistics

  -- `file_at_path` of the store.
  abbrev pub tracked_file : Store → Text → Option Text
  tracked_file s path = object_at_path s path false

  unfoldable pub object_key : Store → Text → Text
  object_key s locator =
      if contains_key locator s.state.tips
      then locator
      else elim (strip_prefix (codes "file:") locator) [
        | none ↦ locator
        | some path ↦ unwrap_or (tracked_file s path) locator
      ]

  unfoldable pub canonicalize_mount : Store → Payload → Payload
  canonicalize_mount s payload = elim (Option.bind (lookup (codes "mount") payload) as_str) [
    | none ↦ payload
    | some parent ↦ insert (codes "mount") (string (object_key s parent)) payload
  ]

  -- A new file has a path of its own. The state is that before the publication.
  unfoldable pub place_file : Store → Commit → Bool → Text → State → Result PipelineError State
  place_file s c statistics key new_state = do
    location ← ok_or (payload_text (codes "path") c) (input (codes "new file object requires path"))
    refuse_if (is_some (object_at_path s location statistics))
        (input (codes "location is already tracked: " ++ location))
    ok (record new_state { locations = insert key location new_state.locations })

  -- A new range hangs on a live file object.
  unfoldable pub mount_range : Commit → Text → State → Result PipelineError State
  mount_range c key new_state = do
    parent ←
        ok_or (payload_text (codes "mount") c)
          (input (codes "new range requires file object mount"))
    refuse_if (not (contains_key parent new_state.tips) || not (is_file_key parent))
        (input (codes "range mount is not a live file object: " ++ parent))
    ok (record new_state { mounts = push_to parent key new_state.mounts })

  -- `file_first` is the test `is_first && is_file_key(&node_key)`.
  unfoldable pub place_object :
      Store
      → Commit
      → (file_first is_first statistics : Bool) → Text
      → State
      → Result PipelineError State
  place_object s c file_first is_first statistics key new_state =
      (if file_first then place_file s c statistics key new_state else ok new_state) >>= λ placed.
      if is_range_key key && is_first then mount_range c key placed else ok placed

  module _ (env : Env) where
    -- The bytes are drawn before those of the salt.
    unfoldable pub make_version :
        ℕ → Bytes → Option Text → SourceDescriptor → SourceDescriptor → SourceVersion
    make_version draw bytes encoding acquisition recovery =
        new_with_recovery (env.fill draw) bytes acquisition recovery encoding

    unfoldable pub make_commit : ℕ → CommitKind → Text → SourceVersion → Payload → Commit
    make_commit draw kind previous_id version payload = record {
      id = none;
      salt = salt_from_bytes (env.fill draw);
      previous_id = previous_id;
      timestamp = env.timestamp;
      schema = codes "omd.commit/3";
      kind = kind;
      content_ref = crates.hex_encode version.id;
      payload = payload;
      range_tips = [];
    }

    -- A record that consumes no content: its version is drawn, and not written.
    unfoldable pub structural : ℕ → CommitKind → Text → Payload → Commit
    unfolding make_version make_commit
    structural draw kind previous_id payload =
        record (make_commit (suc draw) kind previous_id
          (make_version draw [] none (file (codes "root") []) (file (codes "root") [])) payload) {
            content_ref = codes "empty";
          }

    unfoldable pub commit_err : {A : Type 0} → Result CommitError A → Result PipelineError A
    commit_err r = map_err (λ e. commit (env.commit_error_text e)) r

    -- `validate`, then `derive_id`.
    unfoldable pub seal : Commit → Bool → Bytes → Result PipelineError Text
    seal c is_first content = do
      commit_err (validate crates.is_rfc3339 crates.hex_decode c is_first)
      id ← commit_err (derive_id env.quote env.utf8 c content)
      ok (crates.hex_encode id)
