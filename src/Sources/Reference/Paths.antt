-- ===== src/Sources/Reference/Paths.antt =====
-- Paths that are shared between machines: relative ones that stay below the project.
use oh_my_document.Prelude.{
  ℕ, zero, suc, ◌≤◌, Bool, true, false, ◌||◌, List, [], ◌∷◌, ◌++◌, any, Text, text_eq, nat_eq,
  nat_beq, Option, none, some, codes, starts_with, Result, ok, err, ◌>>=◌, refuse_if, if◌then◌else◌,
  ◌==◌, Bool-cases, inl, inr, ◌⊎◌, ◌≡◌, refl, arith, is_some,
}
use oh_my_document.Sources.{SourceError, invalid}
use oh_my_document.Sources.Reference.{SourceDescriptor, file, command, git, validate}

-- The parts of a path between slashes.
unfoldable pub segments : Text → List Text
segments [] = [] ∷ []
segments (c ∷ s) =
    let rest = segments s in
    if nat_beq c b'/' then [] ∷ rest else elim rest [ [] ↦ (c ∷ []) ∷ [] | x ∷ xs ↦ (c ∷ x) ∷ xs ]

-- A component of `Path::components` that is no ordinary name: the parent folder, and the current
-- folder where it leads the path. (Inside a path `.` and empty parts are no components at all.)
unfoldable pub has_parent : List Text → Bool
has_parent parts = any (λ part. part == codes "..") parts

unfoldable pub leads_current : List Text → Bool
leads_current [] = false
leads_current (part ∷ parts) = part == codes "."

unfoldable pub validate_shared_path : (path kind : Text) → Result SourceError (Unit {0})
unfolding has_parent leads_current
validate_shared_path path kind =
    refuse_if
      (starts_with (codes "/") path
        || (has_parent (segments path) || leads_current (segments path)))
      (invalid (kind ++ codes " source path must be normalized and project-relative"))

unfoldable pub validate_portable : SourceDescriptor → Result SourceError (Unit {0})
validate_portable (file project path) =
    validate (file project path) >>= λ _. validate_shared_path path (codes "file")
validate_portable (git project commit path) =
    validate (git project commit path) >>= λ _. validate_shared_path path (codes "Git")
validate_portable (command executable args) = validate (command executable args) >>= λ _. ok tt

-- Walking the parts of a path down from a folder that is `depth` below the project: `none` where
-- the walk leaves the project.
unfoldable pub walk_down : ℕ → List Text → Option ℕ
walk_down depth [] = some depth
walk_down depth (part ∷ parts) =
    let stay = walk_down depth parts in
    let deeper = walk_down (suc depth) parts in
    if part == [] || part == codes "."
    then stay
    else if part == codes ".."
    then elim depth [ zero ↦ none | suc d ↦ walk_down d parts ]
    else deeper

no_parent_stays :
    (depth : ℕ) (parts : List Text)
    → has_parent parts ≡ false
    → (d : ℕ) × (walk_down depth parts ≡ some d) × (depth ≤ d)
unfolding has_parent walk_down any
no_parent_stays depth [] h = (depth, refl, omega arith)
no_parent_stays depth (part ∷ parts) h = elim (Bool-cases (part == [] || part == codes ".")) [
  | inl here ↦ rw here (no_parent_stays depth parts (ground (arith, h)))
  | inr down ↦
      let (d, e, l) = no_parent_stays (suc depth) parts (ground (arith, h)) in
      let name : (part == codes "..") ≡ false = ground (arith, h) in
      (d, rw (down, name) e, omega (arith, l))
]

split_refusal :
    (path k : Text)
    → validate_shared_path path k ≡ ok tt
    → (starts_with (codes "/") path ≡ false) × (has_parent (segments path) ≡ false)
unfolding validate_shared_path
split_refusal path k h = ground (arith, h)

second :
    (first then_ : Result SourceError (Unit {0})) → (first >>= λ _. then_) ≡ ok tt → then_ ≡ ok tt
second (ok _) then_ h = h
second (err e) then_ h = ground (arith, h)

shared_stays :
    (path k : Text)
    → validate_shared_path path k ≡ ok tt
    → (starts_with (codes "/") path ≡ false) × (is_some (walk_down 0 (segments path)) ≡ true)
unfolding validate_shared_path
shared_stays path k h =
    let (relative, below) = split_refusal path k h in
    let (d, e, _) = no_parent_stays 0 (segments path) below in (relative, rw e refl)

-- A file or git source that passes the portable check has a relative path, and walking its parts
-- from the project never leaves the project.
pub validate_portable-walk_down :
    (d : SourceDescriptor) (project path commit : Text)
    → validate_portable d ≡ ok tt
    → (d ≡ file project path) ⊎ (d ≡ git project commit path)
    → (starts_with (codes "/") path ≡ false) × (is_some (walk_down 0 (segments path)) ≡ true)
validate_portable-walk_down d project path commit h (inl e) =
    shared_stays path (codes "file")
      (second (validate (file project path)) _ (unfold validate_portable in rw e at h))
validate_portable-walk_down d project path commit h (inr e) =
    shared_stays path (codes "Git")
      (second (validate (git project commit path)) _ (unfold validate_portable in rw e at h))
