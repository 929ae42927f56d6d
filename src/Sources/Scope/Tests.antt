-- ===== src/Sources/Scope/Tests.antt =====
-- Runs of the segment match.
use oh_my_document.Prelude.{
  Bool, [], ◌∷◌, List, Text, text_beq, strip_prefix, starts_with, true, false, some, codes,
  contains, nat_eq, ◌≡◌, refl,
}
use oh_my_document.Sources.Scope.{seg_match, run, turn, retry, only_stars}
use oh_my_document.Sources.Scope.Segment.{Matches}
use oh_my_document.Sources.Reference.Paths.{segments}
use oh_my_document.Sources.Scope.Included.{
  strip_suffix, seg_matches, last_segment, all_match, glob_match, negated, applies, included_from,
  forward, included,
}
use oh_my_document.Sources.Scope.Complete.{seg_match_lem}

backtracks : seg_match (codes "a*b?d") (codes "axbxbcd") ≡ some true
unfolding seg_match run turn retry only_stars
backtracks = refl

ends_early : seg_match (codes "a*b") (codes "abc") ≡ some false
unfolding seg_match run turn retry only_stars
ends_early = refl

-- A star in the text takes the star of the pattern for itself.
star_text : seg_match (codes "*") (codes "*a") ≡ some false
unfolding seg_match run turn retry only_stars
star_text = refl

seg_match_lem_example :
    (b : Bool) × (seg_match (codes "*.tm?") (codes "a.b.tmp") ≡ some b)
    × (b ≡ true → Matches (codes "*.tm?") (codes "a.b.tmp"))
    × (contains b'*' (codes "a.b.tmp") ≡ false
        → Matches (codes "*.tm?") (codes "a.b.tmp")
        → b ≡ true)
seg_match_lem_example = seg_match_lem (codes "*.tm?") (codes "a.b.tmp")

abbrev log_path : Text
log_path = codes "tmp/a.log"

abbrev but_one : List Text
but_one = codes "*.log" ∷ codes "!tmp/a.log" ∷ codes "docs/" ∷ []

kept : included log_path false but_one ≡ true
unfolding included included_from applies negated glob_match all_match last_segment seg_matches
    strip_suffix strip_prefix starts_with text_beq forward segments seg_match run turn retry
    only_stars
kept = refl
