-- ===== src/Records/Reset/Landing.antt =====
-- Where a reset lands, and which resets are refused for a block.
use oh_my_document.Prelude.{
  true, false, [], Text, Option, none, some, Result, ok, err, Option-cases, Bool-cases, ◌⊎◌, inl,
  inr, ap, sym, ◌∙◌, ◌≡◌, ◌↔◌, refl, arith, codes,
}
use oh_my_document.Records.Reset.{
  ResetTargetRecord, ResetError, ResetOutcome, unknown_target, interior, is_marker, guard_turns,
  open_begin, reset_block_membership, reset, landing_warning,
}
use oh_my_document.Records.Reset.Blocks.{OpenAround, open_begin_iff}

abbrev pub Around : (Text → Option ResetTargetRecord) → Text → Text → Type 0
Around = OpenAround (λ r. r.kind) (λ r. r.previous_id)

abbrev pub kept : Text → ResetOutcome
kept target = record { requested = target; actual = target; warning = [] }

abbrev pub withdrawn : Text → ResetTargetRecord → ResetOutcome
withdrawn target r = record {
  requested = target;
  actual = r.previous_id;
  warning = landing_warning target r.previous_id;
}

abbrev open_around : (Text → Option ResetTargetRecord) → Text → Option Text
open_around read target = open_begin (λ r. r.kind) (λ r. r.previous_id) read guard_turns 0 target

reset-inside :
    (read : Text → Option ResetTargetRecord) (target b : Text) (r : ResetTargetRecord)
    → read target ≡ some r
    → is_marker r.kind ≡ false
    → r.parent_block ≡ none
    → open_around read target ≡ some b
    → reset target read ≡ err (interior target (codes "same-chain") b)
unfolding reset reset_block_membership
reset-inside read target b r found plain free inside =
    rw (reset, reset_block_membership, found, plain, free, inside) refl

reset-outside :
    (read : Text → Option ResetTargetRecord) (target : Text) (r : ResetTargetRecord)
    → read target ≡ some r
    → is_marker r.kind ≡ false
    → r.parent_block ≡ none
    → open_around read target ≡ none
    → reset target read ≡ ok (kept target)
unfolding reset reset_block_membership
reset-outside read target r found plain free outside =
    rw (reset, reset_block_membership, found, plain, free, outside) refl

reset-marker :
    (read : Text → Option ResetTargetRecord) (target : Text) (r : ResetTargetRecord)
    → read target ≡ some r
    → is_marker r.kind ≡ true
    → reset target read ≡ ok (withdrawn target r)
unfolding reset
reset-marker read target r found marker = rw (reset, found, marker) refl

reset-parent :
    (read : Text → Option ResetTargetRecord) (target block : Text) (r : ResetTargetRecord)
    → read target ≡ some r
    → is_marker r.kind ≡ false
    → r.parent_block ≡ some block
    → reset target read ≡ err (interior target (codes "parent-file") block)
unfolding reset reset_block_membership
reset-parent read target block r found plain held =
    rw (reset, reset_block_membership, found, plain, held) refl

reset-unknown :
    (read : Text → Option ResetTargetRecord) (target : Text)
    → read target ≡ none
    → reset target read ≡ err (unknown_target target)
unfolding reset
reset-unknown read target gone = rw (reset, gone) refl

-- An ordinary target that carries no mark of a block of its file is refused for a block of its
-- own chain just when that block's BEGIN is open around it.
pub reset-interior_iff :
    (read : Text → Option ResetTargetRecord) (target b : Text) (r : ResetTargetRecord)
    → read target ≡ some r
    → is_marker r.kind ≡ false
    → r.parent_block ≡ none
    → (reset target read ≡ err (interior target (codes "same-chain") b)) ↔ Around read target b
reset-interior_iff read target b r found plain free =
    elim (Option-cases (open_around read target)) [
      | inl outside ↦ (
        λ h.
            absurd (ground (arith, sym (reset-outside read target r found plain free outside) ∙ h)),
        λ around. absurd (
            ground (
              arith,
              sym outside
                  ∙ (open_begin_iff (λ r. r.kind) (λ r. r.previous_id) read target b).1 around,
            )),
      )
      | inr (c, inside) ↦ (
        λ h.
            let same : c ≡ b =
              ground (arith, sym (reset-inside read target c r found plain free inside) ∙ h) in
            (open_begin_iff (λ r. r.kind) (λ r. r.previous_id) read target b).0
              (inside ∙ ap some same),
        λ around.
            reset-inside read target b r found plain free
              ((open_begin_iff (λ r. r.kind) (λ r. r.previous_id) read target b).1 around),
      )
    ]

abbrev SameResult : (r q : Result ResetError ResetOutcome) → Type 0
SameResult r q = r ≡ q

ok_outcome : (out other : ResetOutcome) → SameResult (ok out) (ok other) → out ≡ other
ok_outcome out other h =
    ap (λ (x : Result ResetError ResetOutcome). elim x [ ok o ↦ o | err _ ↦ out ]) h

pub reset-ok :
    (read : Text → Option ResetTargetRecord) (target : Text) (out : ResetOutcome)
    (r : ResetTargetRecord)
    → read target ≡ some r
    → reset target read ≡ ok out
    → ((is_marker r.kind ≡ true) × (withdrawn target r ≡ out))
      ⊎ ((is_marker r.kind ≡ false)
          × (r.parent_block ≡ none)
          × ((b : Text) → ¬ Around read target b)
          × (kept target ≡ out))
reset-ok read target out r found h = elim (Bool-cases (is_marker r.kind)) [
  | inl marker ↦ inl (marker, ok_outcome _ out (sym (reset-marker read target r found marker) ∙ h))
  | inr plain ↦ elim (Option-cases r.parent_block) [
    | inr (block, held) ↦
        absurd (ground (arith, sym (reset-parent read target block r found plain held) ∙ h))
    | inl free ↦ elim (Option-cases (open_around read target)) [
      | inr (b, inside) ↦
          absurd (ground (arith, sym (reset-inside read target b r found plain free inside) ∙ h))
      | inl outside ↦ inr (
        plain,
        free,
        λ b around. absurd (
            ground (
              arith,
              sym outside
                  ∙ (open_begin_iff (λ r. r.kind) (λ r. r.previous_id) read target b).1 around,
            )),
        ok_outcome _ out (sym (reset-outside read target r found plain free outside) ∙ h),
      )
    ]
  ]
]

-- A reset lands just on the predecessor of a marker, with a warning, or on an ordinary target
-- that has no mark of a block of its file and that no BEGIN of its chain is open around.
pub reset-ok_iff :
    (read : Text → Option ResetTargetRecord) (target : Text) (out : ResetOutcome)
    → (reset target read ≡ ok out) ↔ (
        (r : ResetTargetRecord) × (read target ≡ some r)
        × (((is_marker r.kind ≡ true) × (withdrawn target r ≡ out))
            ⊎ ((is_marker r.kind ≡ false)
                × (r.parent_block ≡ none)
                × ((b : Text) → ¬ Around read target b)
                × (kept target ≡ out))))
reset-ok_iff read target out = (
  λ h. elim (Option-cases (read target)) [
    | inl gone ↦ absurd (ground (arith, sym (reset-unknown read target gone) ∙ h))
    | inr (r, found) ↦ (r, found, reset-ok read target out r found h)
  ],
  λ (r, found, how). elim how [
    | inl (marker, e) ↦ reset-marker read target r found marker ∙ ap ok e
    | inr (plain, free, none_open, e) ↦ elim (Option-cases (open_around read target)) [
      | inl outside ↦ reset-outside read target r found plain free outside ∙ ap ok e
      | inr (b, inside) ↦
          absurd (
            none_open b
              ((open_begin_iff (λ r. r.kind) (λ r. r.previous_id) read target b).0 inside))
    ]
  ],
)
