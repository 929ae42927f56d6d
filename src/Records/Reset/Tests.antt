-- ===== src/Records/Reset/Tests.antt =====
-- Runs of resets on a chain with a closed and an open block.
use oh_my_document.Prelude.{
  ℕ, Bool, true, false, List, [], ◌∷◌, ◌++◌, All, Text, text_eq, text_beq, Option, none, some,
  Result, ok, err, codes, contains, is_nodup, is_empty, if◌then◌else◌, ◌⊎◌, ◌≡◌, ◌≢◌, ◌↔◌, refl,
  arith, inl, inr,
}
use oh_my_document.Prelude.Maps.{Map, lookup, keys, contains_key}
use oh_my_document.Records.Commit.{CommitKind, commit, init, atomic_begin}
use oh_my_document.Records.Store.{State, Link, default_state}
use oh_my_document.Records.Reset.{
  ResetTargetRecord, ResetBlockMembership, ResetError, interior, ResetOutcome, landing_warning,
  is_marker, reset, apply_reset_to_state, removed_from, retain_entries, map_values, withdraw,
}
use oh_my_document.Records.Reset.Landing.{Around, kept, withdrawn, reset-interior_iff, reset-ok_iff}
use oh_my_document.Records.Reset.Applied.{
  Down, down, ended, removed, links-apply_reset_to_state, link_pending-apply_reset_to_state,
}

-- A is the root, B opens a block that holds C.
abbrev kinds : Map (CommitKind × Text)
kinds =
    (codes "A", (init, []))
    ∷ (codes "B", (atomic_begin, codes "A"))
    ∷ (codes "C", (commit, codes "B"))
    ∷ []

abbrev read : Text → Option (CommitKind × Text)
read id = lookup id kinds

abbrev read_record : Text → Option ResetTargetRecord
read_record id = elim (read id) [
  | none ↦ none
  | some (k, p) ↦ some (record { kind = k; previous_id = p; parent_block = none })
]

abbrev inside : ResetTargetRecord
inside = record { kind = commit; previous_id = codes "B"; parent_block = none }

inside_read : read_record (codes "C") ≡ some inside
unfolding lookup text_beq
inside_read = refl

reset-interior_iff_example :
    (reset (codes "C") read_record ≡ err (interior (codes "C") (codes "same-chain") (codes "B")))
    ↔ Around read_record (codes "C") (codes "B")
reset-interior_iff_example =
    reset-interior_iff read_record (codes "C") (codes "B") inside inside_read
      (unfold is_marker in refl) refl

abbrev no_block : Text → Result ResetError (Option ResetBlockMembership)
no_block tip = ok none

abbrev one_child : Map Text
one_child = (codes "range:R", codes "C") ∷ []

abbrev sample_link : Link
sample_link = record {
  link_id = codes "L";
  source = codes "file:A";
  target = codes "file:A";
  source_version = codes "A";
  target_version = codes "A";
  created_by = codes "A";
}

-- The tip is C, and D is a dangling commit behind A.
abbrev before : State
before = record default_state {
  tips = (codes "file:A", codes "C") ∷ [];
  links = (codes "L", sample_link) ∷ [];
  link_pending = (codes "L", codes "C" ∷ codes "D" ∷ []) ∷ [];
}

whole_chain : Down read (codes "D") (codes "C") (codes "C" ∷ codes "B" ∷ codes "A" ∷ [])
unfolding lookup text_beq
whole_chain =
    down (codes "C") (codes "B") commit _ (λ e. ground (arith, e)) (λ e. ground (arith, e)) refl
      (down (codes "B") (codes "A") atomic_begin _ (λ e. ground (arith, e)) (λ e. ground (arith, e))
        refl
        (down (codes "A") [] init _ (λ e. ground (arith, e)) (λ e. ground (arith, e)) refl ended))

links-apply_reset_to_state_example :
    lookup (codes "L") (apply_reset_to_state before (codes "file:A") (codes "D") read).links ≡ (
      if contains (codes "A") (codes "C" ∷ codes "B" ∷ codes "A" ∷ [])
      then none
      else some sample_link)
unfolding lookup text_beq is_nodup keys contains
links-apply_reset_to_state_example =
    links-apply_reset_to_state before (codes "file:A") (codes "D") (codes "L") sample_link read
      (codes "C" ∷ codes "B" ∷ codes "A" ∷ []) refl refl whole_chain (omega arith)

pending_left :
    lookup (codes "L") (apply_reset_to_state before (codes "file:A") (codes "A") read).link_pending
    ≡ some (codes "D" ∷ [])
unfolding apply_reset_to_state withdraw removed_from retain_entries map_values lookup contains_key
    contains text_beq oh_my_document.Prelude.Maps.insert oh_my_document.Prelude.Lists.retain
pending_left = refl

link_pending-apply_reset_to_state_example :
    (contains_key (codes "L") (apply_reset_to_state before (codes "file:A") (codes "A") read).links
      ≡ true)
    × ((c : Text)
        → contains c (codes "D" ∷ []) ≡ true
        → contains c (removed before (codes "file:A") (codes "A") read) ≡ false)
link_pending-apply_reset_to_state_example =
    link_pending-apply_reset_to_state before (codes "file:A") (codes "A") (codes "L") read
      (codes "D" ∷ []) pending_left

abbrev landing : ResetOutcome
landing = record {
  requested = codes "B";
  actual = codes "A";
  warning = codes "requested boundary B lands on predecessor A";
}

marker_reset : reset (codes "B") read_record ≡ ok landing
unfolding reset is_marker landing_warning lookup text_beq
marker_reset = refl

reset-ok_iff_example : (reset (codes "B") read_record ≡ ok landing) ↔ (
    (r : ResetTargetRecord) × (read_record (codes "B") ≡ some r)
    × (((is_marker r.kind ≡ true) × (withdrawn (codes "B") r ≡ landing))
        ⊎ ((is_marker r.kind ≡ false)
            × (r.parent_block ≡ none)
            × ((b : Text) → ¬ Around read_record (codes "B") b)
            × (kept (codes "B") ≡ landing))))
reset-ok_iff_example = reset-ok_iff read_record (codes "B") landing
