-- ===== src/Relations/Coverage/Tests.antt =====
-- Runs and instances for src/relations/coverage.rs.
use oh_my_document.Prelude.{
  ℕ, ◌≡◌, refl, [], ◌∷◌, codes, length, retain, not, ◌&&◌, ltb, List, contains,
}
use oh_my_document.Relations.Range.{text, byte, Range}
use oh_my_document.Relations.Coverage.{
  text_coverage, byte_coverage, counted_from, positions, covered_by, positions_to_gaps,
  is_whitespace,
}
use oh_my_document.Relations.Coverage.Laws.{
  covers, in_gaps, is_counted, IsSeparated, text_coverage_lem, byte_coverage_lem,
}

abbrev two_ranges : List Range
two_ranges =
    record { start = 1; end = 3; mode = text } ∷ record { start = 2; end = 9; mode = byte } ∷ []

text_gaps :
    (text_coverage two_ranges (codes "ab c d")).gaps
    ≡ record { start = 0; end = 1; mode = text }
      ∷ record { start = 3; end = 4; mode = text }
      ∷ record { start = 5; end = 6; mode = text }
      ∷ []
unfolding text_coverage covered_by counted_from positions positions_to_gaps is_whitespace retain
    contains
text_gaps = refl

byte_gaps : (byte_coverage two_ranges 5).gaps ≡ record { start = 0; end = 2; mode = byte } ∷ []
unfolding byte_coverage covered_by positions positions_to_gaps retain contains
byte_gaps = refl

text_coverage_lem_example :
    let s = text_coverage two_ranges (codes "ab c d") in
    (s.total ≡ length (counted_from 0 (codes "ab c d")))
    × (s.covered ≡ length (retain (covers text two_ranges) (counted_from 0 (codes "ab c d"))))
    × ((p : ℕ)
        → in_gaps s.gaps p ≡ (is_counted (codes "ab c d") p && not (covers text two_ranges p)))
    × IsSeparated 0 s.gaps
text_coverage_lem_example = text_coverage_lem two_ranges (codes "ab c d")

byte_coverage_lem_example :
    let s = byte_coverage two_ranges 5 in
    (s.total ≡ 5)
    × (s.covered ≡ length (retain (covers byte two_ranges) (positions 0 5)))
    × ((p : ℕ) → in_gaps s.gaps p ≡ (ltb p 5 && not (covers byte two_ranges p)))
    × IsSeparated 0 s.gaps
byte_coverage_lem_example = byte_coverage_lem two_ranges 5
