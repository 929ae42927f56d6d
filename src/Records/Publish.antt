-- ===== src/Records/Publish.antt =====
-- src/records/store.rs, `publish`: immutable records first, then the swap of the state file.
mod Atomicity
mod Prepare
mod Steps
mod Swap
mod Tests
use oh_my_document.Prelude.{
  ℕ, Bool, true, false, not, ◌&&◌, ◌||◌, List, [], ◌∷◌, ◌++◌, Text, text_eq, Option, none, some,
  codes, starts_with, Result, ok, err, ok_or, map_err, if◌then◌else◌, ◌==◌,
}
use oh_my_document.Prelude.Maps.{Map, lookup, insert, remove}
use oh_my_document.Records.Id.{Bytes}
use oh_my_document.Records.Crates.{Crates}
use oh_my_document.Records.Commit.{Commit}
use oh_my_document.Records.Version
use oh_my_document.Records.Version.{SourceVersion, content_sha256}
use oh_my_document.Records.Store.{State, StoreError, io, invalid_record}

pub data Stage : Type 0 where
  write_records sync_records write_temp_state sync_temp_state rename_state sync_dir : Stage

-- The files below the root of the store, by their relative paths.
pub record Disk : Type 0 where
  pub files : Map Bytes

-- `toml::to_string`, of the crate `toml`, for the three kinds of records.
pub record Toml : Type 0 where
  pub commit_text : Commit → Option Bytes
  pub version_text : SourceVersion → Option Bytes
  pub state_text : State → Option Bytes

abbrev pub Step : Type 0
Step = Disk → Disk × Result StoreError (Unit {0})

-- `?` between two steps.
unfoldable pub after :
    Disk → Result StoreError (Unit {0}) → Step → Disk × Result StoreError (Unit {0})
after d (ok _) k = k d
after d (err e) k = (d, err e)

infixr 6 ◌▷◌
unfoldable pub ◌▷◌ : Step → Step → Step
(m ▷ k) d = after (m d).0 (m d).1 k

unfoldable pub write_file : (path : Text) → Bytes → Step
write_file path bytes d = (record { files = insert path bytes d.files }, ok tt)

-- A file that is there already is let stand where its content is its name, or a version that
-- is the same.
unfoldable pub may_stand : (path : Text) → (old new : Bytes) → Bool
may_stand path old new =
    starts_with (codes "content/") path || (starts_with (codes "versions/") path && old == new)

unfoldable pub write_immutable : (path : Text) → Bytes → Step
unfolding may_stand write_file
write_immutable path bytes d = elim (lookup path d.files) [
  | none ↦ write_file path bytes d
  | some old ↦
      if may_stand path old bytes
      then (d, ok tt)
      else (d, err (invalid_record (codes "immutable record exists: " ++ path)))
]

-- `probe.at(stage)`, which aborts where it answers no.
unfoldable pub at : (Stage → Bool) → Stage → Step
at probe stage d = if probe stage then (d, ok tt) else (d, err io)

-- A serialization, before the file is written.
unfoldable pub with_text : Option Bytes → (Bytes → Step) → Step
with_text none k d = (d, err (invalid_record (codes "toml")))
with_text (some bytes) k d = k bytes d

-- The manifest of published ids is opened for appending, and not created.
unfoldable pub append_published : Text → Step
unfolding write_file
append_published commit_id d = elim (lookup (codes "published") d.files) [
  | none ↦ (d, err io)
  | some lines ↦ write_file (codes "published") (lines ++ (commit_id ++ codes "\n")) d
]

-- `rename` over the state file.
unfoldable pub rename_state_file : Step
rename_state_file d = elim (lookup (codes "state.toml.tmp") d.files) [
  | none ↦ (d, err io)
  | some bytes ↦ (
    record { files = insert (codes "state.toml") bytes (remove (codes "state.toml.tmp") d.files) },
    ok tt,
  )
]

unfoldable pub commit_path : Text → Text
commit_path commit_id = codes "commits/" ++ (commit_id ++ codes ".toml")

module _ ⦃crates : Crates⦄ where
  unfoldable pub write_version : Toml → Option SourceVersion → Step
  write_version toml none d = (d, ok tt)
  write_version toml (some v) d =
      with_text (toml.version_text v)
        (write_immutable (codes "versions/" ++ (crates.hex_encode v.id ++ codes ".toml"))) d

  unfoldable pub write_content : Option Bytes → Step
  write_content none d = (d, ok tt)
  write_content (some c) d = write_immutable (codes "content/" ++ content_sha256 c) c d

  unfoldable pub validate_version : Option SourceVersion → Result StoreError (Unit {0})
  validate_version none = ok tt
  validate_version (some v) = map_err (λ _. invalid_record (codes "version")) (Version.validate v)

-- The end of `publish`: the state in memory is replaced where everything went well.
unfoldable pub finish :
    (old new : State)
    → Disk × Result StoreError (Unit {0})
    → (Disk × State) × Result StoreError (Unit {0})
finish old new (d, ok _) = ((d, new), ok tt)
finish old new (d, err e) = ((d, old), err e)

module _ ⦃crates : Crates⦄ (toml : Toml) (probe : Stage → Bool) where
  -- Everything before the swap.
  unfoldable pub prepare : Commit → Text → Option SourceVersion → Option Bytes → State → Step
  unfolding write_version write_content
  prepare commit commit_id version content new_state =
      at probe write_records
      ▷ with_text (toml.commit_text commit) (write_immutable (commit_path commit_id))
      ▷ at probe sync_records
      ▷ write_version toml version
      ▷ write_content content
      ▷ append_published commit_id
      ▷ at probe write_temp_state
      ▷ with_text (toml.state_text new_state) (write_file (codes "state.toml.tmp"))
      ▷ at probe sync_temp_state
      ▷ at probe rename_state

  unfoldable pub publish_files : Commit → Text → Option SourceVersion → Option Bytes → State → Step
  publish_files commit commit_id version content new_state =
      prepare commit commit_id version content new_state ▷ (rename_state_file ▷ at probe sync_dir)

  -- `publish`. `authority` is what `require_write_authority` answers.
  unfoldable pub publish :
      (authority : Result StoreError (Unit {0}))
      → Commit
      → Text
      → Option SourceVersion
      → Option Bytes
      → (new_state : State) → Disk
      → (old_state : State) → (Disk × State) × Result StoreError (Unit {0})
  unfolding finish validate_version
  publish authority commit commit_id version content new_state d old_state =
      let step : Step = publish_files commit commit_id version content new_state in
      finish old_state new_state
        (((λ d. (d, authority)) ▷ ((λ d. (d, validate_version version)) ▷ step)) d)
