-- ===== src/Relations/Range/Laws.antt =====
-- Which ranges are accepted, and what it means that two of them overlap.
use oh_my_document.Prelude.{ℕ, ◌≤◌, ◌<◌, true, ◌≡◌, ◌↔◌, ok, err, arith, max, u64_mod, ◌-◌}
use oh_my_document.Relations.Range.{
  Mode, mode_beq_iff, Range, inverted, out_of_bounds, new, len, overlaps,
}

abbrev pub In : ℕ → Range → Type 0
In p r = (r.start ≤ p) × (p < r.end)

-- `Range::new` accepts exactly the ordered ranges within the extent, and returns the range that
-- was asked for; an inverted range is refused as inverted, also where it is out of bounds too.
pub new_iff :
    (start end length : ℕ) (mode : Mode)
    → ((r : Range)
        → (new start end mode length ≡ ok r) ↔ (
            (start ≤ end)
            × (end ≤ length)
            × (r ≡ record { start = start; end = end; mode = mode })))
      × ((new start end mode length ≡ err inverted) ↔ (end < start))
      × ((new start end mode length ≡ err out_of_bounds) ↔ ((start ≤ end) × (length < end)))
unfolding new
new_iff start end length mode =
    (λ r. (λ h. ground arith, λ h. ground arith), ground arith, ground arith)

-- Two nonempty ranges overlap exactly where they have one mode and share a position.
pub overlaps_iff :
    (r s : Range)
    → r.start < r.end
    → s.start < s.end
    → (overlaps r s ≡ true) ↔ ((r.mode ≡ s.mode) × ((p : ℕ) × In p r × In p s))
unfolding overlaps
overlaps_iff r s h k = (
  λ o. (
    ground (arith, mode_beq_iff r.mode s.mode),
    (max r.start s.start, ground (arith), ground (arith)),
  ),
  λ (e, (p, i, j)). ground (arith, mode_beq_iff r.mode s.mode),
)

-- The length of an ordered range of machine words is the number of its positions.
pub len_lem : (r : Range) → r.start ≤ r.end → r.end < u64_mod → len r ≡ r.end - r.start
unfolding len
len_lem r h k = omega arith

-- An empty range shares no position with any range, and yet overlaps every range of its mode that
-- lies on both sides of it.
pub overlaps_empty :
    (r s : Range)
    → r.end ≡ r.start
    → ((p : ℕ) → ¬ In p r)
      × ((overlaps r s ≡ true) ↔ ((r.mode ≡ s.mode) × (r.start < s.end) × (s.start < r.start)))
unfolding overlaps
overlaps_empty r s h = (λ p i. omega arith, ground (arith, mode_beq_iff r.mode s.mode))
