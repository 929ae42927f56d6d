-- ===== src/Relations/Dirty/Tests.antt =====
-- Runs and instances for src/relations/dirty.rs.
use oh_my_document.Prelude.{
  Bool, true, List, [], ◌∷◌, Text, text_eq, text_beq, some, ok, contains, is_nodup, ◌≡◌, refl,
  codes, ◌==◌, not,
}
use oh_my_document.Prelude.Maps.{Map, TextSet, lookup}
use oh_my_document.Relations.Dirty.{
  DirtyState, DanglingHop, content_changed, propagate, first_missing,
}
use oh_my_document.Relations.Dirty.Reachable.{reachable_bounded, walk, push_all, all_deps}
use oh_my_document.Relations.Dirty.Reachable.Correct.{Reach, reachable_bounded_lem}

-- a → b, c; b → a; c → d.
abbrev cyclic : Map TextSet
cyclic =
    (codes "a", codes "b" ∷ codes "c" ∷ [])
    ∷ (codes "b", codes "a" ∷ [])
    ∷ (codes "c", codes "d" ∷ [])
    ∷ []

walk_run :
    reachable_bounded (codes "a") cyclic ≡ some (codes "a" ∷ codes "c" ∷ codes "d" ∷ codes "b" ∷ [])
unfolding reachable_bounded walk push_all all_deps lookup contains text_beq
walk_run = refl

reachable_bounded_lem_example :
    (result : List Text) × (reachable_bounded (codes "a") cyclic ≡ some result)
    × (is_nodup result ≡ true)
    × ((a : Text) → contains a result ≡ true → Reach cyclic (codes "a") a)
    × ((a : Text) → Reach cyclic (codes "a") a → contains a result ≡ true)
reachable_bounded_lem_example = reachable_bounded_lem (codes "a") cyclic

abbrev blank : DirtyState
blank = record { dirty = []; obligations = [] }

-- Everything but `d` is present.
abbrev all_but_d : Text → Bool
all_but_d t = not (t == codes "d")

abbrev hop : DanglingHop
hop = record { dependent = codes "c"; missing = codes "d" }

everything : Text → Bool
everything t = true

goes_through : (propagate everything cyclic blank).1 ≡ ok tt
unfolding propagate first_missing everything
goes_through = refl

abbrev one_unclean : DirtyState
one_unclean = record {
  dirty = (codes "a", content_changed) ∷ [];
  obligations = record { commit_id = codes "a"; reason = codes "why"; atop = [] } ∷ [];
}
