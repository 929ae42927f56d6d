-- ===== src/Records/Publish/Steps.antt =====
-- What steps establish on the disk, one after another.
use oh_my_document.Prelude.{
  Bool, true, false, Text, text_eq, text_beq, text_beq_iff, Option, none, some, codes, starts_with,
  Result, ok, err, ◌==◌, Bool-cases, Option-cases, inl, inr, ap, ◌∙◌, ◌≡◌, refl, arith,
}
use oh_my_document.Prelude.Maps.{lookup, insert, remove, lookup-insert, lookup-remove}
use oh_my_document.Records.Id.{Bytes}
use oh_my_document.Records.Store.{StoreError, io}
use oh_my_document.Records.Publish.{
  Stage, Disk, Step, after, ◌▷◌, write_file, may_stand, write_immutable, at, with_text,
  rename_state_file, commit_path,
}
use oh_my_document.Records.Publish.Atomicity.{is_record, Keeps, Safe}

-- What holds of the disk where a step returns well.
unfoldable pub Yields : (Disk → Type 0) → Step → Type 0
Yields Q m = (d : Disk) → (m d).1 ≡ ok tt → Q (m d).0

pub after-second :
    (Q : Disk → Type 0) (d : Disk) (r : Result StoreError (Unit {0})) (k : Step)
    → ((e : Disk) → (k e).1 ≡ ok tt → Q (k e).0)
    → (after d r k).1 ≡ ok tt
    → Q (after d r k).0
unfolding after
after-second Q d (ok _) k y h = y d h
after-second Q d (err e) k y h = absurd (ground (arith, h))

pub ▷-second : (Q : Disk → Type 0) (m k : Step) → Yields Q k → Yields Q (m ▷ k)
unfolding Yields ◌▷◌
▷-second Q m k y d h = after-second Q (m d).0 (m d).1 k y h

pub after-first :
    (Q : Disk → Type 0) (d : Disk) (r : Result StoreError (Unit {0})) (k : Step)
    → (r ≡ ok tt → Q d)
    → ((e : Disk) → Q e → Q (k e).0)
    → (after d r k).1 ≡ ok tt
    → Q (after d r k).0
unfolding after
after-first Q d (ok _) k y keep h = keep d (y refl)
after-first Q d (err e) k y keep h = absurd (ground (arith, h))

pub ▷-first :
    (Q : Disk → Type 0) (m k : Step)
    → Yields Q m
    → ((e : Disk) → Q e → Q (k e).0)
    → Yields Q (m ▷ k)
unfolding Yields ◌▷◌
▷-first Q m k y keep d h = after-first Q (m d).0 (m d).1 k (y d) keep h

-- A file of the disk.
unfoldable pub Holds : Text → Option Bytes → Disk → Type 0
Holds path content d = lookup path d.files ≡ content

pub at-Holds :
    (path : Text) (content : Option Bytes) (probe : Stage → Bool) (stage : Stage) (d : Disk)
    → Holds path content d
    → Holds path content (at probe stage d).0
unfolding Holds at lookup
at-Holds path content probe stage d h = elim (Bool-cases (probe stage)) [
  | inl on ↦ rw (at, on) h
  | inr off ↦ rw (at, off) h
]

pub write_file-Holds :
    (path : Text) (o : Option Bytes) → Yields (Holds path o) (with_text o (write_file path))
unfolding Yields Holds with_text write_file
write_file-Holds path none d h = absurd (ground (arith, h))
write_file-Holds path (some bytes) d h =
    lookup-insert path path bytes d.files ∙ ground (arith, text_beq_iff path path)

pub after-Holds :
    (Q : Disk → Type 0) (d : Disk) (r : Result StoreError (Unit {0})) (k : Step)
    → Q d
    → ((e : Disk) → Q e → Q (k e).0)
    → Q (after d r k).0
unfolding after
after-Holds Q d (ok _) k h keep = keep d h
after-Holds Q d (err e) k h keep = h

pub ▷-Holds :
    (Q : Disk → Type 0) (m k : Step)
    → ((e : Disk) → Q e → Q (m e).0)
    → ((e : Disk) → Q e → Q (k e).0)
    → (e : Disk) → Q e
    → Q ((m ▷ k) e).0
unfolding ◌▷◌
▷-Holds Q m k s t e h = after-Holds Q (m e).0 (m e).1 k (s e h) t

-- The bytes of a record stand at its path.
unfoldable pub Recorded : Text → Option Bytes → Disk → Type 0
Recorded path o d = (bytes : Bytes) × (o ≡ some bytes) × (lookup path d.files ≡ some bytes)

pub write_immutable-Recorded :
    (path : Text) (o : Option Bytes)
    → ((old new : Bytes) → may_stand path old new ≡ false)
    → Yields (Recorded path o) (with_text o (write_immutable path))
unfolding Yields Recorded with_text write_immutable
write_immutable-Recorded path none fresh d h = absurd (ground (arith, h))
write_immutable-Recorded path (some bytes) fresh d h = elim (Option-cases (lookup path d.files)) [
  | inl absent ↦ (
    bytes,
    refl,
    rw (write_immutable, write_file, absent)
        (lookup-insert path path bytes d.files ∙ ground (arith, text_beq_iff path path)),
  )
  | inr (old, there) ↦ absurd (ground (arith, rw (write_immutable, there, fresh old bytes) at h))
]

pub Recorded-Safe :
    (path : Text) (o : Option Bytes) (k : Step)
    → is_record path ≡ true
    → Safe k
    → (e : Disk) → Recorded path o e
    → Recorded path o (k e).0
unfolding Recorded Safe Keeps
Recorded-Safe path o k r s e (bytes, same, there) = (bytes, same, (s e).0 path bytes r there)

pub commit_path-fresh : (id : Text) (old new : Bytes) → may_stand (commit_path id) old new ≡ false
unfolding may_stand commit_path starts_with
commit_path-fresh id old new = refl

pub commit_path-is_record : (id : Text) → is_record (commit_path id) ≡ true
unfolding is_record commit_path starts_with
commit_path-is_record id = refl

pub commit_path-other : (id : Text) → (commit_path id == codes "state.toml") ≡ false
unfolding commit_path text_beq
commit_path-other id = refl

pub tmp_path :
    (is_record (codes "state.toml.tmp") ≡ false)
    × ((codes "state.toml.tmp" == codes "state.toml") ≡ false)
unfolding is_record starts_with text_beq
tmp_path = (refl, refl)

abbrev pub moved : Disk → Bytes → Disk
moved e bytes = record {
  files = insert (codes "state.toml") bytes (remove (codes "state.toml.tmp") e.files);
}

pub rename-none :
    (e : Disk) → lookup (codes "state.toml.tmp") e.files ≡ none → rename_state_file e ≡ (e, err io)
unfolding rename_state_file
rename-none e gone = rw (rename_state_file, gone) refl

pub rename-some :
    (e : Disk) (bytes : Bytes)
    → lookup (codes "state.toml.tmp") e.files ≡ some bytes
    → rename_state_file e ≡ (moved e bytes, ok tt)
unfolding rename_state_file
rename-some e bytes there = rw (rename_state_file, there) refl

pub state_path : is_record (codes "state.toml") ≡ false
unfolding is_record starts_with
state_path = refl

pub apart_from_record :
    (path other : Text) → is_record path ≡ false → is_record other ≡ true → (path == other) ≡ false
apart_from_record path other h r =
    ground (arith, text_beq_iff path other, λ (e : path ≡ other). ap is_record e, h, r)

pub moved-Keeps : (e : Disk) (bytes : Bytes) → Keeps e (moved e bytes)
unfolding Keeps
moved-Keeps e bytes path old r l =
    lookup-insert (codes "state.toml") path bytes (remove (codes "state.toml.tmp") e.files)
    ∙ rw (apart_from_record (codes "state.toml") path state_path r) (
        lookup-remove (codes "state.toml.tmp") path e.files
        ∙ rw (apart_from_record (codes "state.toml.tmp") path tmp_path.0 r) l)

pub moved-state :
    (e : Disk) (bytes : Bytes) → lookup (codes "state.toml") (moved e bytes).files ≡ some bytes
moved-state e bytes =
    lookup-insert (codes "state.toml") (codes "state.toml") bytes
      (remove (codes "state.toml.tmp") e.files)
    ∙ ground (arith, text_beq_iff (codes "state.toml") (codes "state.toml"))
