-- ===== src/Records/Publish/Atomicity.antt =====
-- A publication that is cut off anywhere leaves the old state file or the new one.
use oh_my_document.Prelude.{
  Bool, true, false, ◌||◌, ◌++◌, Text, text_eq, text_beq, text_beq_iff, Option, none, some, codes,
  starts_with, Result, ok, err, ◌==◌, Bool-cases, Option-cases, inl, inr, ap, sym, ◌∙◌, ◌≡◌, refl,
  arith,
}
use oh_my_document.Prelude.Maps.{lookup, lookup-insert}
use oh_my_document.Records.Id.{Bytes}
use oh_my_document.Records.Store.{StoreError}
use oh_my_document.Records.Publish.{
  Stage, Disk, Step, after, ◌▷◌, write_file, may_stand, write_immutable, at, with_text,
  append_published,
}

-- Paths of immutable records.
unfoldable pub is_record : Text → Bool
is_record path =
    starts_with (codes "commits/") path
    || (starts_with (codes "versions/") path || starts_with (codes "content/") path)

-- No record that is there changes.
unfoldable pub Keeps : Disk → Disk → Type 0
Keeps d e =
    (path : Text) (bytes : Bytes)
    → is_record path ≡ true
    → lookup path d.files ≡ some bytes
    → lookup path e.files ≡ some bytes

unfoldable pub KeepsState : Disk → Disk → Type 0
KeepsState d e = lookup (codes "state.toml") e.files ≡ lookup (codes "state.toml") d.files

-- A step that keeps all records, and the state file.
unfoldable pub Safe : Step → Type 0
unfolding Keeps KeepsState
Safe m = (d : Disk) → Keeps d (m d).0 × KeepsState d (m d).0

after-Safe :
    (d e : Disk) (r : Result StoreError (Unit {0})) (k : Step)
    → Keeps d e
    → KeepsState d e
    → Safe k
    → Keeps d (after e r k).0 × KeepsState d (after e r k).0
unfolding Safe after Keeps KeepsState
after-Safe d e (ok _) k a b t =
    let (c, f) = t e in (λ path bytes h l. c path bytes h (a path bytes h l), f ∙ b)
after-Safe d e (err x) k a b t = (a, b)

pub ▷-Safe : (m k : Step) → Safe m → Safe k → Safe (m ▷ k)
unfolding Safe ◌▷◌
▷-Safe m k s t d = after-Safe d (m d).0 (m d).1 k (s d).0 (s d).1 (unfold Safe in t)

pub write_file-Safe :
    (path : Text) (bytes : Bytes)
    → is_record path ≡ false
    → (path == codes "state.toml") ≡ false
    → Safe (write_file path bytes)
unfolding Safe write_file Keeps KeepsState
write_file-Safe path bytes h k d = (
  λ other old r l.
      let apart : (path == other) ≡ false =
        ground (arith, text_beq_iff path other, λ (e : path ≡ other). ap is_record e, h, r) in
      lookup-insert path other bytes d.files ∙ rw apart l,
  lookup-insert path (codes "state.toml") bytes d.files ∙ rw k refl,
)

new_record-Safe :
    (path : Text) (bytes : Bytes) (d : Disk)
    → (path == codes "state.toml") ≡ false
    → lookup path d.files ≡ none
    → Keeps d (write_file path bytes d).0 × KeepsState d (write_file path bytes d).0
unfolding write_file Keeps KeepsState
new_record-Safe path bytes d k absent = (
  λ other old r l. elim (Bool-cases (path == other)) [
    | inl same ↦ absurd (
        ground
          (arith, sym absent ∙ (ap (λ p. lookup p d.files) ((text_beq_iff path other).0 same) ∙ l)))
    | inr apart ↦ lookup-insert path other bytes d.files ∙ rw apart l
  ],
  lookup-insert path (codes "state.toml") bytes d.files ∙ rw k refl,
)

pub unchanged : (d : Disk) → Keeps d d × KeepsState d d
unfolding Keeps KeepsState
unchanged d = (λ path bytes r l. l, refl)

pub write_immutable-Safe :
    (path : Text) (bytes : Bytes)
    → (path == codes "state.toml") ≡ false
    → Safe (write_immutable path bytes)
unfolding Safe write_immutable
write_immutable-Safe path bytes k d = elim (Option-cases (lookup path d.files)) [
  | inl absent ↦ rw (write_immutable, absent) (new_record-Safe path bytes d k absent)
  | inr (old, there) ↦ elim (Bool-cases (may_stand path old bytes)) [
    | inl stands ↦ rw (write_immutable, there, stands) (unchanged d)
    | inr clash ↦ rw (write_immutable, there, clash) (unchanged d)
  ]
]

pub at-Safe : (probe : Stage → Bool) (stage : Stage) → Safe (at probe stage)
unfolding Safe at
at-Safe probe stage d = elim (Bool-cases (probe stage)) [
  | inl on ↦ rw on (unchanged d)
  | inr off ↦ rw off (unchanged d)
]

pub with_text-Safe :
    (o : Option Bytes) (k : Bytes → Step)
    → ((bytes : Bytes) → Safe (k bytes))
    → Safe (with_text o k)
unfolding Safe with_text
with_text-Safe none k s d = unchanged d
with_text-Safe (some bytes) k s d = s bytes d

pub append_published-Safe : (commit_id : Text) → Safe (append_published commit_id)
unfolding Safe append_published
append_published-Safe commit_id d = elim (Option-cases (lookup (codes "published") d.files)) [
  | inl absent ↦ rw (append_published, absent) (unchanged d)
  | inr (lines, there) ↦
      rw (append_published, there)
        (unfold Safe in
          write_file-Safe (codes "published") (lines ++ (commit_id ++ codes "\n"))
            (unfold is_record starts_with in refl) (unfold text_beq in refl) d)
]
