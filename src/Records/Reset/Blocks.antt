-- ===== src/Records/Reset/Blocks.antt =====
-- Which commits are members of a block: the walks of the program and the markers that match.
use oh_my_document.Prelude.{
  ℕ, zero, suc, true, List, [], ◌∷◌, ◌++◌, Text, Option, none, some, is_empty, if◌then◌else◌,
  Option-cases, Bool-cases, inl, inr, sym, ◌∙◌, ◌≡◌, ◌↔◌, refl, arith,
}
use oh_my_document.Records.Commit.{CommitKind, atomic_begin}
use oh_my_document.Records.Reset.{depth_after, guard_turns, open_begin, commit_is_block_member}
use oh_my_document.Records.Reset.Dyck.{Matched, first_open, first_open_iff}

module _ {R : Type 0} (kind : R → CommitKind) (previous_id : R → Text) where
  -- The commits from an id back to the root of its chain, at most one more than `turns`.
  unfoldable pub ancestry :
      (Text → Option R) → (turns : ℕ) → (cur : Text) → List (Text × CommitKind)
  ancestry read zero cur = elim (read cur) [ none ↦ [] | some r ↦ (cur, kind r) ∷ [] ]
  ancestry read (suc turns) cur = elim (read cur) [
    | none ↦ []
    | some r ↦
        let rest = ancestry read turns (previous_id r) in
        (cur, kind r) ∷ (if is_empty (previous_id r) then [] else rest)
  ]

  pub open_begin-ancestry :
      (read : Text → Option R) (turns d : ℕ) (cur : Text)
      → open_begin kind previous_id read turns d cur ≡ first_open d (ancestry read turns cur)
  unfolding open_begin ancestry first_open
  open_begin-ancestry read zero d cur = elim (Option-cases (read cur)) [
    | inl gone ↦ rw (open_begin, ancestry, gone) refl
    | inr (r, found) ↦ elim (Option-cases (depth_after (kind r) d)) [
      | inl stop ↦ rw (open_begin, ancestry, first_open, found, stop) refl
      | inr (e, on) ↦ rw (open_begin, ancestry, first_open, found, on) refl
    ]
  ]
  open_begin-ancestry read (suc turns) d cur = elim (Option-cases (read cur)) [
    | inl gone ↦ rw (open_begin, ancestry, gone) refl
    | inr (r, found) ↦ elim (Option-cases (depth_after (kind r) d)) [
      | inl stop ↦ rw (open_begin, ancestry, first_open, found, stop) refl
      | inr (e, on) ↦ elim (Bool-cases (is_empty (previous_id r))) [
        | inl last ↦ rw (open_begin, ancestry, first_open, found, on, last) refl
        | inr more ↦
            rw (open_begin, ancestry, first_open, found, on, more)
              (open_begin-ancestry read turns e (previous_id r))
      ]
    ]
  ]

  -- `b` is a BEGIN on the chain back from `cur`, and the markers before it match.
  unfoldable pub OpenAround : (Text → Option R) → (cur b : Text) → Type 0
  OpenAround read cur b =
      (before : List (Text × CommitKind)) × (after : List (Text × CommitKind)) × (ancestry read
          guard_turns cur
        ≡ before ++ (b, atomic_begin) ∷ after)
      × Matched before

  pub open_begin_iff :
      (read : Text → Option R) (cur b : Text)
      → (open_begin kind previous_id read guard_turns 0 cur ≡ some b) ↔ OpenAround read cur b
  unfolding OpenAround
  open_begin_iff read cur b =
      rw (open_begin-ancestry read guard_turns 0 cur)
        (first_open_iff b (ancestry read guard_turns cur))

-- The member test answers yes just when some BEGIN is open around the commit: when a BEGIN
-- stands on its chain and the markers before it, read backwards, match.
pub commit_is_block_member_iff :
    (read : Text → Option (CommitKind × Text)) (cur : Text)
    → (commit_is_block_member read cur ≡ true)
      ↔ ((b : Text) × OpenAround (λ r. r.0) (λ r. r.1) read cur b)
unfolding commit_is_block_member
commit_is_block_member_iff read cur =
    elim (Option-cases
      (open_begin (λ (r : CommitKind × Text). r.0) (λ r. r.1) read guard_turns 0 cur)) [
        | inl outside ↦ (
          λ h. absurd (ground (arith, rw (commit_is_block_member, outside) at h)),
          λ (b, around). absurd (
              ground
                (arith, sym outside ∙ (open_begin_iff (λ r. r.0) (λ r. r.1) read cur b).1 around)),
        )
        | inr (b, inside) ↦ (
          λ _. (b, (open_begin_iff (λ r. r.0) (λ r. r.1) read cur b).0 inside),
          λ _. rw (commit_is_block_member, inside) refl,
        )
      ]
