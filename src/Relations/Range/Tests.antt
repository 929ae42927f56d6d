-- ===== src/Relations/Range/Tests.antt =====
-- Runs and instances for src/relations/range.rs.
use oh_my_document.Prelude.{
  ◌≡◌, refl, codes, ok, err, value, leb, not, ◌==◌, if◌then◌else◌, length, take, drop, ◌-◌, arith,
}
use oh_my_document.Relations.Range.{text, mode_eq, Range, out_of_bounds, decode}
use oh_my_document.Relations.Range.Slice.{
  text_slice, text_slice_lem, scan, byte_slice, byte_drop, byte_take, byte_len, utf8_len,
}

abbrev middle : Range
middle = record { start = 1; end = 3; mode = text }

-- "é" has two bytes.
slice_run : text_slice (codes "aébc") middle ≡ value (ok (codes "éb"))
unfolding text_slice scan byte_slice byte_drop byte_take byte_len utf8_len
slice_run = refl

text_slice_lem_example :
    text_slice (codes "aébc") middle
    ≡ value (
        if not (middle.mode == text)
        then err decode
        else if leb middle.end (length (codes "aébc"))
        then ok (take (middle.end - middle.start) (drop middle.start (codes "aébc")))
        else err out_of_bounds)
text_slice_lem_example = text_slice_lem (codes "aébc") middle (omega arith)

abbrev later : Range
later = record { start = 2; end = 7; mode = text }
