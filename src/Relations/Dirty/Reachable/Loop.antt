-- ===== src/Relations/Dirty/Reachable/Loop.antt =====
-- The walk ends: its fuel is enough for every graph, cyclic ones included.
use oh_my_document.Prelude.{
  ℕ, zero, suc, ◌+◌, ◌≤◌, false, List, [], ◌∷◌, ◌++◌, Text, text_eq, text_beq_iff, some, contains,
  length, if◌then◌else◌, ◌≡◌, refl, arith, Bool-cases, inl, inr,
}
use oh_my_document.Prelude.Maps.{Map, TextSet, lookup}
use oh_my_document.Relations.Dirty.Reachable.{targets, push_all, walk, all_deps, reachable_bounded}

-- The dependencies of nodes that are not seen yet.
unfoldable pub left_over : Map TextSet → List Text → ℕ
left_over [] seen = 0
left_over ((k, deps) ∷ edges) seen =
    let rest = left_over edges seen in if contains k seen then rest else length deps + rest

left_over-nil : (edges : Map TextSet) → left_over edges [] ≡ all_deps edges
unfolding left_over all_deps contains
left_over-nil [] = refl
left_over-nil ((k, deps) ∷ edges) = omega (arith, left_over-nil edges)

left_over-cons :
    (edges : Map TextSet) (n : Text) (seen : List Text)
    → left_over edges (n ∷ seen) ≤ left_over edges seen
unfolding left_over contains
left_over-cons [] n seen = omega arith
left_over-cons ((k, deps) ∷ edges) n seen = ground (arith, left_over-cons edges n seen)

left_over-expand :
    (edges : Map TextSet) (n : Text) (seen : List Text)
    → contains n seen ≡ false
    → left_over edges (n ∷ seen) + length (targets edges n) ≤ left_over edges seen
unfolding left_over contains lookup
left_over-expand [] n seen h = omega arith
left_over-expand ((k, deps) ∷ edges) n seen h = ground (
  arith,
  left_over-expand edges n seen,
  left_over-cons edges n seen,
  text_beq_iff k n,
  text_beq_iff n k,
)

length-push_all :
    (deps : TextSet) (stack : List Text) → length (push_all deps stack) ≡ length deps + length stack
unfolding push_all
length-push_all [] stack = omega arith
length-push_all (d ∷ deps) stack = omega (arith, length-push_all deps (d ∷ stack))

walk_ends :
    (edges : Map TextSet) (fuel : ℕ) (stack seen order : List Text)
    → length stack + left_over edges seen ≤ fuel
    → (result : List Text) × (walk edges fuel stack seen order ≡ some result)
unfolding walk
walk_ends edges fuel [] seen order h = (order, refl)
walk_ends edges zero (n ∷ stack) seen order h = absurd (omega arith)
walk_ends edges (suc fuel) (n ∷ stack) seen order h = elim (Bool-cases (contains n seen)) [
  | inl old ↦ rw old (walk_ends edges fuel stack seen order (omega arith))
  | inr new ↦ rw new (
      walk_ends edges fuel (push_all (targets edges n) stack) (n ∷ seen) (order ++ n ∷ [])
        (omega (arith, left_over-expand edges n seen new, length-push_all (targets edges n) stack)))
]

pub reachable_bounded_ends :
    (start : Text) (edges : Map TextSet)
    → (result : List Text) × (reachable_bounded start edges ≡ some result)
unfolding reachable_bounded
reachable_bounded_ends start edges =
    walk_ends edges (all_deps edges + 1) (start ∷ []) [] [] (omega (arith, left_over-nil edges))
