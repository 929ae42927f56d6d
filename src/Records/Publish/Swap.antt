-- ===== src/Records/Publish/Swap.antt =====
-- The whole publication: its records are there before the state file is swapped.
use oh_my_document.Prelude.{
  Bool, Text, text_eq, Option, none, some, codes, Result, ok, err, Option-cases, inl, inr, ◌⊎◌, ap,
  sym, ◌∙◌, ◌≡◌, ◌≢◌, refl, arith,
}
use oh_my_document.Prelude.Maps.{lookup}
use oh_my_document.Records.Id.{Bytes}
use oh_my_document.Records.Crates.{Crates}
use oh_my_document.Records.Commit.{Commit}
use oh_my_document.Records.Version.{SourceVersion}
use oh_my_document.Records.Store.{State, StoreError, io}
use oh_my_document.Records.Publish.{
  Stage, sync_dir, Disk, Toml, Step, after, ◌▷◌, at, rename_state_file, commit_path, prepare,
  publish_files, publish, finish, validate_version,
}
use oh_my_document.Records.Publish.Atomicity.{Keeps, KeepsState, Safe, at-Safe, unchanged}
use oh_my_document.Records.Publish.Steps.{
  Yields, Holds, Recorded, commit_path-is_record, moved, rename-none, rename-some, moved-Keeps,
  moved-state,
}
use oh_my_document.Records.Publish.Prepare.{prepare-Safe, prepare-Recorded, prepare-Holds}

module _ ⦃crates : Crates⦄ (toml : Toml) (probe : Stage → Bool) where
  abbrev swap : Step
  swap = rename_state_file ▷ at probe sync_dir

  swap-missing : (e : Disk) → lookup (codes "state.toml.tmp") e.files ≡ none → swap e ≡ (e, err io)
  unfolding ◌▷◌ after
  swap-missing e gone =
      ap (λ (r : Disk × Result StoreError (Unit {0})). after r.0 r.1 (at probe sync_dir))
        (rename-none e gone)

  swap-renamed :
      (e : Disk) (bytes : Bytes)
      → lookup (codes "state.toml.tmp") e.files ≡ some bytes
      → swap e ≡ at probe sync_dir (moved e bytes)
  unfolding ◌▷◌ after
  swap-renamed e bytes there =
      ap (λ (r : Disk × Result StoreError (Unit {0})). after r.0 r.1 (at probe sync_dir))
        (rename-some e bytes there)

  -- The state file as before, and an error.
  abbrev pub Cut : Disk → Disk × Result StoreError (Unit {0}) → Type 0
  Cut d r = KeepsState d r.0 × (r.1 ≢ ok tt)

  -- The new state file, with its commit record on the disk.
  abbrev pub Swapped : Commit → Text → State → Disk → Type 0
  Swapped commit commit_id new_state e =
      (lookup (codes "state.toml") e.files ≡ toml.state_text new_state)
      × Recorded (commit_path commit_id) (toml.commit_text commit) e

  at-moved :
      (commit : Commit) (commit_id : Text) (new_state : State) (e : Disk) (bytes : Bytes)
      → Recorded (commit_path commit_id) (toml.commit_text commit) e
      → some bytes ≡ toml.state_text new_state
      → Keeps e (at probe sync_dir (moved e bytes)).0
        × (Cut e (at probe sync_dir (moved e bytes))
            ⊎ Swapped commit commit_id new_state (at probe sync_dir (moved e bytes)).0)
  unfolding Keeps KeepsState Recorded Safe
  at-moved commit commit_id new_state e bytes (b, same, stands) texts =
      let (k, ks) = at-Safe probe sync_dir (moved e bytes) in
      let keeps : Keeps e (at probe sync_dir (moved e bytes)).0 =
        λ path old r l. k path old r (moved-Keeps e bytes path old r l) in
      (
        keeps,
        inr (
          ks ∙ (moved-state e bytes ∙ texts),
          (b, same, keeps (commit_path commit_id) b (commit_path-is_record commit_id) stands),
        ),
      )

  swap_lem :
      (commit : Commit) (commit_id : Text) (new_state : State) (e : Disk)
      → Recorded (commit_path commit_id) (toml.commit_text commit) e
      → Holds (codes "state.toml.tmp") (toml.state_text new_state) e
      → Keeps e (swap e).0 × (Cut e (swap e) ⊎ Swapped commit commit_id new_state (swap e).0)
  unfolding Holds
  swap_lem commit commit_id new_state e recorded holds =
      elim (Option-cases (lookup (codes "state.toml.tmp") e.files)) [
        | inl gone ↦
            let (k, ks) = unchanged e in
            rw (swap-missing e gone) (k, inl (ks, λ h. ground (arith, h)))
        | inr (bytes, there) ↦
            rw (swap-renamed e bytes there)
              (at-moved commit commit_id new_state e bytes recorded (sym there ∙ holds))
      ]

  -- What a publication leaves, from the disk that it starts with.
  unfoldable pub IsAtomic :
      Commit → Text → State → Disk → Disk × Result StoreError (Unit {0}) → Type 0
  IsAtomic commit commit_id new_state d r =
      Keeps d r.0 × (Cut d r ⊎ Swapped commit commit_id new_state r.0)

  after-IsAtomic :
      (commit : Commit) (commit_id : Text) (new_state : State) (d e : Disk)
      (r : Result StoreError (Unit {0})) (k : Step)
      → Keeps d e
      → KeepsState d e
      → (r ≡ ok tt → IsAtomic commit commit_id new_state e (k e))
      → IsAtomic commit commit_id new_state d (after e r k)
  unfolding IsAtomic after Keeps KeepsState
  after-IsAtomic commit commit_id new_state d e (ok _) k a b f =
      let (c, how) = f refl in
      (
        λ path old r l. c path old r (a path old r l),
        elim how [ inl (same, failed) ↦ inl (same ∙ b, failed) | inr swapped ↦ inr swapped ],
      )
  after-IsAtomic commit commit_id new_state d e (err x) k a b f =
      (a, inl (b, λ h. ground (arith, h)))

  publish_files-IsAtomic :
      (commit : Commit) (commit_id : Text) (version : Option SourceVersion) (content : Option Bytes)
      (new_state : State) (d : Disk)
      → IsAtomic commit commit_id new_state d
          (publish_files toml probe commit commit_id version content new_state d)
  unfolding publish_files ◌▷◌ Safe Yields IsAtomic
  publish_files-IsAtomic commit commit_id version content new_state d =
      let ready : Disk × Result StoreError (Unit {0}) =
        prepare toml probe commit commit_id version content new_state d in
      let (a, b) = prepare-Safe toml probe commit commit_id version content new_state d in
      after-IsAtomic commit commit_id new_state d ready.0 ready.1 swap a b (λ h.
        swap_lem commit commit_id new_state ready.0
          (prepare-Recorded toml probe commit commit_id version content new_state d h)
          (prepare-Holds toml probe commit commit_id version content new_state d h))

  finish-IsAtomic :
      (commit : Commit) (commit_id : Text) (new old : State) (d : Disk)
      (r : Disk × Result StoreError (Unit {0}))
      → IsAtomic commit commit_id new d r
      → IsAtomic commit commit_id new d ((finish old new r).0.0, (finish old new r).1)
        × ((finish old new r).0.1 ≡ elim (finish old new r).1 [ ok _ ↦ new | err _ ↦ old ])
  unfolding finish
  finish-IsAtomic commit commit_id new old d (e, ok _) a = (a, refl)
  finish-IsAtomic commit commit_id new old d (e, err x) a = (a, refl)

  -- Wherever a publication stops, every record that was on the disk is there unchanged, and the
  -- state file is the old one, with an error as the answer, or the new one, with its commit
  -- record on the disk. The state in memory is the new one just where the answer is no error.
  pub publish-IsAtomic :
      (authority : Result StoreError (Unit {0})) (commit : Commit) (commit_id : Text)
      (version : Option SourceVersion) (content : Option Bytes) (new_state : State) (d : Disk)
      (old_state : State)
      → let done : (Disk × State) × Result StoreError (Unit {0}) =
          publish toml probe authority commit commit_id version content new_state d old_state in
        IsAtomic commit commit_id new_state d (done.0.0, done.1)
        × (done.0.1 ≡ elim done.1 [ ok _ ↦ new_state | err _ ↦ old_state ])
  unfolding publish ◌▷◌
  publish-IsAtomic authority commit commit_id version content new_state d old_state =
      let (a, b) = unchanged d in
      finish-IsAtomic commit commit_id new_state old_state d _ (
        after-IsAtomic commit commit_id new_state d d authority _ a b (λ _.
          after-IsAtomic commit commit_id new_state d d (validate_version version) _ a b
            (λ _. publish_files-IsAtomic commit commit_id version content new_state d)))
