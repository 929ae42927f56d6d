-- ===== src/Records/Reset/Dyck.antt =====
-- Markers that match like brackets, and the depth count that finds the first open one.
use oh_my_document.Prelude.{
  ℕ, zero, suc, true, false, List, [], ◌∷◌, ◌++◌, append_assoc, Text, Option, none, some, inl, inr,
  ◌⊎◌, Bool-cases, ap, sym, ◌∙◌, ◌≡◌, ◌↔◌, refl, arith,
}
use oh_my_document.Records.Commit.{
  CommitKind, init, commit, clean, unclean, atomic_begin, atomic_end, link, adapt, rename, delete,
  import, remove, scope_adjust, tag, file_verify, reset, audit_init, audit_patch, note_init,
  note_patch,
}
use oh_my_document.Records.Reset.{is_marker, depth_after}

-- A chain read backwards: an END comes before the BEGIN that it closes.
pub data Matched : List (Text × CommitKind) → Type 0 where
  nothing : Matched []
  ordinary :
      (id : Text) (k : CommitKind) (chain : List (Text × CommitKind))
      → is_marker k ≡ false
      → Matched chain
      → Matched ((id, k) ∷ chain)
  block :
      (end begin : Text) (inner chain : List (Text × CommitKind))
      → Matched inner
      → Matched chain
      → Matched ((end, atomic_end) ∷ (inner ++ (begin, atomic_begin) ∷ chain))

unfoldable pub first_open : ℕ → List (Text × CommitKind) → Option Text
first_open d [] = none
first_open d ((id, k) ∷ chain) = elim (depth_after k d) [
  | none ↦ some id
  | some e ↦ first_open e chain
]

depth_after-ordinary : (k : CommitKind) (d : ℕ) → is_marker k ≡ false → depth_after k d ≡ some d
unfolding is_marker depth_after
depth_after-ordinary init d h = refl
depth_after-ordinary commit d h = refl
depth_after-ordinary clean d h = refl
depth_after-ordinary unclean d h = refl
depth_after-ordinary atomic_begin d h = ground arith
depth_after-ordinary atomic_end d h = ground arith
depth_after-ordinary link d h = refl
depth_after-ordinary adapt d h = refl
depth_after-ordinary rename d h = refl
depth_after-ordinary delete d h = refl
depth_after-ordinary import d h = refl
depth_after-ordinary remove d h = refl
depth_after-ordinary scope_adjust d h = refl
depth_after-ordinary tag d h = refl
depth_after-ordinary file_verify d h = refl
depth_after-ordinary reset d h = refl
depth_after-ordinary audit_init d h = refl
depth_after-ordinary audit_patch d h = refl
depth_after-ordinary note_init d h = refl
depth_after-ordinary note_patch d h = refl

first_open-ordinary :
    (id : Text) (k : CommitKind) (d : ℕ) (chain : List (Text × CommitKind))
    → is_marker k ≡ false
    → first_open d ((id, k) ∷ chain) ≡ first_open d chain
unfolding first_open
first_open-ordinary id k d chain o = rw (first_open, depth_after-ordinary k d o) refl

-- Matched markers leave the count as it was.
first_open-Matched :
    {chain : List (Text × CommitKind)}
    → Matched chain
    → (d : ℕ) (rest : List (Text × CommitKind)) → first_open d (chain ++ rest) ≡ first_open d rest
unfolding first_open depth_after
first_open-Matched nothing d rest = refl
first_open-Matched (ordinary id k chain o m) d rest =
    first_open-ordinary id k d (chain ++ rest) o ∙ first_open-Matched m d rest
first_open-Matched (block end begin inner chain m n) d rest =
    rw (append_assoc inner ((begin, atomic_begin) ∷ chain) rest) (
      first_open-Matched m (suc d) ((begin, atomic_begin) ∷ (chain ++ rest))
      ∙ first_open-Matched n d rest)

-- Matched segments, with the open BEGINs between them.
unfoldable pub Segments : ℕ → List (Text × CommitKind) → Type 0
Segments zero chain = Matched chain
Segments (suc d) chain =
    (inner : List (Text × CommitKind)) × (begin : Text) × (rest : List (Text × CommitKind)) × (chain
      ≡ inner ++ (begin, atomic_begin) ∷ rest)
    × Matched inner
    × Segments d rest

Segments-ordinary :
    (d : ℕ) (id : Text) (k : CommitKind) (chain : List (Text × CommitKind))
    → is_marker k ≡ false
    → Segments d chain
    → Segments d ((id, k) ∷ chain)
unfolding Segments
Segments-ordinary zero id k chain o m = ordinary id k chain o m
Segments-ordinary (suc d) id k chain o (inner, begin, rest, e, m, more) =
    ((id, k) ∷ inner, begin, rest, ap (◌∷◌ (id, k)) e, ordinary id k inner o m, more)

Segments-end :
    (d : ℕ) (id : Text) (chain : List (Text × CommitKind))
    → Segments (suc d) chain
    → Segments d ((id, atomic_end) ∷ chain)
unfolding Segments
Segments-end zero id chain (inner, begin, rest, e, m, more) =
    rw e (block id begin inner rest m more)
Segments-end (suc d) id chain (inner, begin, rest, e, m, (inner2, begin2, rest2, e2, m2, more)) = (
  (id, atomic_end) ∷ (inner ++ (begin, atomic_begin) ∷ inner2),
  begin2,
  rest2,
  ap (◌∷◌ (id, atomic_end)) (
      e
      ∙ ap (λ l. inner ++ (begin, atomic_begin) ∷ l) e2
      ∙ sym (append_assoc inner ((begin, atomic_begin) ∷ inner2) ((begin2, atomic_begin) ∷ rest2))),
  block id begin inner inner2 m m2,
  more,
)

-- What the count has passed when it stops.
unfoldable pub Passed : ℕ → Text → List (Text × CommitKind) → Type 0
Passed d b chain =
    (before : List (Text × CommitKind)) × (after : List (Text × CommitKind)) × (chain
      ≡ before ++ (b, atomic_begin) ∷ after)
    × Segments d before

Passed-cons :
    (d e : ℕ) (b : Text) (x : Text × CommitKind) (chain : List (Text × CommitKind))
    → ((before : List (Text × CommitKind)) → Segments e before → Segments d (x ∷ before))
    → Passed e b chain
    → Passed d b (x ∷ chain)
unfolding Passed
Passed-cons d e b x chain f (before, after, same, s) =
    (x ∷ before, after, ap (◌∷◌ x) same, f before s)

marker_cases : (k : CommitKind) → is_marker k ≡ true → (k ≡ atomic_begin) ⊎ (k ≡ atomic_end)
unfolding is_marker
marker_cases atomic_begin h = inl refl
marker_cases atomic_end h = inr refl
marker_cases init h = absurd (ground (arith, h))
marker_cases commit h = absurd (ground (arith, h))
marker_cases clean h = absurd (ground (arith, h))
marker_cases unclean h = absurd (ground (arith, h))
marker_cases link h = absurd (ground (arith, h))
marker_cases adapt h = absurd (ground (arith, h))
marker_cases rename h = absurd (ground (arith, h))
marker_cases delete h = absurd (ground (arith, h))
marker_cases import h = absurd (ground (arith, h))
marker_cases remove h = absurd (ground (arith, h))
marker_cases scope_adjust h = absurd (ground (arith, h))
marker_cases tag h = absurd (ground (arith, h))
marker_cases file_verify h = absurd (ground (arith, h))
marker_cases reset h = absurd (ground (arith, h))
marker_cases audit_init h = absurd (ground (arith, h))
marker_cases audit_patch h = absurd (ground (arith, h))
marker_cases note_init h = absurd (ground (arith, h))
marker_cases note_patch h = absurd (ground (arith, h))

begin-Passed :
    (d : ℕ) (b id : Text) (chain : List (Text × CommitKind))
    → ((e : ℕ) → first_open e chain ≡ some b → Passed e b chain)
    → first_open d ((id, atomic_begin) ∷ chain) ≡ some b
    → Passed d b ((id, atomic_begin) ∷ chain)
unfolding first_open depth_after
begin-Passed zero b id chain f h =
    let same : id ≡ b = ground (arith, h) in
    unfold Passed Segments in ([], chain, ap (λ i. (i, atomic_begin) ∷ chain) same, nothing)
begin-Passed (suc d) b id chain f h =
    Passed-cons (suc d) d b (id, atomic_begin) chain
      (λ before s. unfold Segments in ([], id, before, refl, nothing, s)) (f d h)

first_open-Passed :
    (d : ℕ) (b : Text) (chain : List (Text × CommitKind))
    → first_open d chain ≡ some b
    → Passed d b chain
unfolding first_open
first_open-Passed d b [] h = absurd (ground (arith, h))
first_open-Passed d b ((id, k) ∷ chain) h = elim (Bool-cases (is_marker k)) [
  | inr plain ↦
      Passed-cons d d b (id, k) chain (λ before s. Segments-ordinary d id k before plain s)
        (first_open-Passed d b chain (sym (first_open-ordinary id k d chain plain) ∙ h))
  | inl marker ↦ elim (marker_cases k marker) [
    | inl begin ↦
        rw begin (begin-Passed d b id chain (λ e g. first_open-Passed e b chain g) (rw begin at h))
    | inr end ↦ rw end (
        Passed-cons d (suc d) b (id, atomic_end) chain (λ before s. Segments-end d id before s)
          (first_open-Passed (suc d) b chain (unfold first_open depth_after in rw end at h)))
  ]
]

-- The first open BEGIN is the one behind which all markers match.
pub first_open_iff :
    (b : Text) (chain : List (Text × CommitKind))
    → (first_open 0 chain ≡ some b) ↔ (
        (before : List (Text × CommitKind)) × (after : List (Text × CommitKind)) × (chain
          ≡ before ++ (b, atomic_begin) ∷ after)
        × Matched before)
first_open_iff b chain = (
  λ h. unfold Passed Segments in first_open-Passed 0 b chain h,
  λ (before, after, e, m). rw e (
      first_open-Matched m 0 ((b, atomic_begin) ∷ after) ∙ (unfold first_open depth_after in refl)),
)
