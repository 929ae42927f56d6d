-- ===== src/Relations/Coverage.antt =====
-- src/relations/coverage.rs: union coverage of a text or of bytes, with the gaps.
mod Laws
mod Tests
use oh_my_document.Prelude.{
  ℕ, zero, suc, ◌+◌, ◌-◌, Bool, true, false, not, ◌||◌, ◌&&◌, List, [], ◌∷◌, ◌++◌, ltb, leb, min,
  if◌then◌else◌, ◌==◌, nat_eq, Text, length, retain, contains,
}
use oh_my_document.Relations.Range.{Mode, text, byte, mode_eq, Range, is_empty, len}
use oh_my_document.Relations.Range.Slice.{byte_len}

pub record CoverageStats : Type 0 where
  pub covered : ℕ
  pub total : ℕ
  pub gaps : List Range

-- `char::is_whitespace`: the Unicode property White_Space.
unfoldable pub is_whitespace : ℕ → Bool
is_whitespace c =
    (leb 9 c && leb c 13)
    || c == 0x20
    || c == 0x85
    || c == 0xA0
    || c == 0x1680
    || (leb 0x2000 c && leb c 0x200A)
    || c == 0x2028
    || c == 0x2029
    || c == 0x202F
    || c == 0x205F
    || c == 0x3000

-- `start..start + n`, and `start..end`.
unfoldable pub count_up : ℕ → ℕ → List ℕ
count_up start zero = []
count_up start (suc n) = start ∷ count_up (start + 1) n

unfoldable pub positions : ℕ → ℕ → List ℕ
unfolding count_up
positions start end = count_up start (end - start)

-- The set `covered`: only its members are asked for. `limit` cuts a range at the extent.
unfoldable pub covered_by : Mode → (ℕ → ℕ) → List Range → List ℕ
covered_by mode limit [] = []
covered_by mode limit (r ∷ ranges) =
    let rest = covered_by mode limit ranges in
    if r.mode == mode then positions r.start (limit r.end) ++ rest else rest

-- The positions of `content.chars().enumerate()` that are no whitespace.
unfoldable pub counted_from : ℕ → Text → List ℕ
counted_from i [] = []
counted_from i (c ∷ s) =
    let rest = counted_from (i + 1) s in if not (is_whitespace c) then i ∷ rest else rest

-- The loop over `positions[1..]`.
gaps_from : Mode → ℕ → ℕ → List ℕ → List Range
gaps_from mode start previous [] = record { start = start; end = previous + 1; mode = mode } ∷ []
gaps_from mode start previous (position ∷ rest) =
    let same = gaps_from mode start position rest in
    let next = gaps_from mode position position rest in
    if not (position == previous + 1)
    then record { start = start; end = previous + 1; mode = mode } ∷ next
    else same

unfoldable pub positions_to_gaps : List ℕ → Mode → List Range
unfolding gaps_from
positions_to_gaps [] mode = []
positions_to_gaps (first ∷ rest) mode = gaps_from mode first first rest

unfoldable pub text_coverage : List Range → Text → CoverageStats
text_coverage ranges content =
    let covered = covered_by text (λ end. end) ranges in
    let counted = counted_from 0 content in
    let uncovered = retain (λ p. not (contains p covered)) counted in
    record {
      covered = length counted - length uncovered;
      total = length counted;
      gaps = positions_to_gaps uncovered text;
    }

unfoldable pub byte_coverage : List Range → ℕ → CoverageStats
byte_coverage ranges byte_len =
    let covered = covered_by byte (λ end. min end byte_len) ranges in
    let uncovered = retain (λ p. not (contains p covered)) (positions 0 byte_len) in
    record {
      covered = byte_len - length uncovered;
      total = byte_len;
      gaps = positions_to_gaps uncovered byte;
    }

unfoldable pub coverage : List Range → Text → Mode → ℕ × ℕ
coverage ranges content text =
    let stats = text_coverage ranges content in (stats.covered, stats.total)
coverage ranges content byte =
    let stats = byte_coverage ranges (byte_len content) in (stats.covered, stats.total)

unfoldable pub effective_link_span : Range → Bool → ℕ
effective_link_span r target_empty = if target_empty || is_empty r then 0 else len r
