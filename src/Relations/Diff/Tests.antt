-- ===== src/Relations/Diff/Tests.antt =====
-- Runs and instances for src/relations/diff.rs.
use oh_my_document.Prelude.{
  nat_eq, ℕ, ◌≡◌, ◌≢◌, refl, List, [], ◌∷◌, some, true, false, arith, codes, Text, take, drop,
  starts_with, ◌-◌, ◌+◌, ◌%◌, inl, inr, u64_mod, any,
}
use oh_my_document.Relations.Range.{text, Range}
use oh_my_document.Relations.Diff.{
  DiffOp, equal, shifted, insertion, replace, Hunk, hunks_from_ops, map_range, map_position,
  dirtied_by,
}
use oh_my_document.Relations.Diff.Script.{IsScript}
use oh_my_document.Relations.Diff.Mapping.{map_range-kept, map_position-clamped}
use oh_my_document.Relations.Diff.Dirtied.{dirtied_by-kept}
use oh_my_document.Relations.Diff.Candidates.{locate_candidates}

-- "abcde" becomes "XYabcZ".
abbrev ops : List DiffOp
ops = insertion 0 0 2 ∷ equal 0 2 3 ∷ replace 3 2 5 1 ∷ []

ops-IsScript : IsScript ops 0 0 (codes "abcde") (codes "XYabcZ")
ops-IsScript = ground arith

abbrev b_only : Range
b_only = record { start = 1; end = 2; mode = text }

b_moves : map_range (hunks_from_ops ops) b_only ≡ some (record b_only { start = 3; end = 4 })
unfolding map_range map_position hunks_from_ops shifted
b_moves = refl

map_range-kept_example :
    map_range (hunks_from_ops ops) b_only
    ≡ some (record b_only { start = 2 + (1 - 0); end = 2 + (2 - 0) })
map_range-kept_example =
    map_range-kept ops 0 2 3 b_only (codes "abcde") (codes "XYabcZ") ops-IsScript (inr (inl refl))
      (omega arith) (omega arith) (inl (omega arith)) (omega arith)

-- "abc" becomes "abX": the range of "ab" is not dirtied, and is mapped to all of "abX".
abbrev last_replaced : List DiffOp
last_replaced = equal 0 0 2 ∷ replace 2 1 2 1 ∷ []

abbrev ab_only : Range
ab_only = record { start = 0; end = 2; mode = text }

ab_clean : dirtied_by (hunks_from_ops last_replaced) (ab_only ∷ []) ≡ false ∷ []
unfolding dirtied_by hunks_from_ops any
ab_clean = refl

ab_grows : map_range (hunks_from_ops last_replaced) ab_only ≡ some (record ab_only { end = 3 })
unfolding map_range map_position hunks_from_ops shifted
ab_grows = refl

-- Ten characters are inserted at the start, and character 5 is replaced by one other: the position
-- 5 stands at 15 in the new text, and is mapped to 6.
abbrev insert_ten : Hunk
insert_ten = record { pos = 0; len = 10; is_insertion = true; old_len = 0; new_len = 10 }

abbrev swap_one : Hunk
swap_one = record { pos = 5; len = 1; is_insertion = false; old_len = 1; new_len = 1 }

clamped_too_early :
    map_position (insert_ten ∷ swap_one ∷ []) 5 true ≡ (swap_one.pos + swap_one.new_len) % u64_mod
clamped_too_early =
    map_position-clamped insert_ten swap_one [] 5 true (omega arith) (omega arith) (omega arith)

abbrev far_ops : List DiffOp
far_ops = equal 0 0 4 ∷ replace 4 1 4 1 ∷ []

far_ops-IsScript : IsScript far_ops 0 0 (codes "abcde") (codes "abcdZ")
far_ops-IsScript = ground arith

not_dirty : dirtied_by (hunks_from_ops far_ops) (b_only ∷ []) ≡ false ∷ []
unfolding dirtied_by hunks_from_ops any
not_dirty = refl

dirtied_by-kept_example :
    (at : ℕ) × (take (b_only.end - b_only.start) (drop at (codes "abcdZ"))
      ≡ take (b_only.end - b_only.start) (drop b_only.start (codes "abcde")))
dirtied_by-kept_example =
    dirtied_by-kept far_ops b_only (codes "abcde") (codes "abcdZ") far_ops-IsScript (omega arith)
      (omega arith) not_dirty

abbrev sees : Text
sees = codes "see the sea"

two_places : locate_candidates (codes "se") sees ≡ 0 ∷ 8 ∷ []
unfolding locate_candidates starts_with
two_places = refl

se_nonempty : codes "se" ≢ []
se_nonempty e = cc
