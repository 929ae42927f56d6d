-- ===== src/Relations/Dirty/Reachable.antt =====
-- src/relations/dirty.rs, `reachable_bounded`: the walk along dependencies visits each node once.
mod Loop
pub mod Correct
use oh_my_document.Prelude.{
  ℕ, zero, suc, ◌+◌, Bool, true, false, List, [], ◌∷◌, ◌++◌, Text, text_eq, Option, none, some,
  contains, length, unwrap_or, if◌then◌else◌,
}
use oh_my_document.Prelude.Maps.{Map, TextSet, lookup}

-- `edges.get(&n)`, an empty set where there is none.
abbrev pub targets : Map TextSet → Text → TextSet
targets edges n = unwrap_or (lookup n edges) []

-- `for d in deps { stack.push(d) }`, the top of the stack first.
unfoldable pub push_all : TextSet → List Text → List Text
push_all [] stack = stack
push_all (d ∷ deps) stack = push_all deps (d ∷ stack)

-- The `while` loop. `none` means that the fuel ran out.
unfoldable pub walk : Map TextSet → ℕ → List Text → List Text → List Text → Option (List Text)
walk edges fuel [] seen order = some order
walk edges zero (n ∷ stack) seen order = none
walk edges (suc fuel) (n ∷ stack) seen order =
    let skip = walk edges fuel stack seen order in
    let expand = walk edges fuel (push_all (targets edges n) stack) (n ∷ seen) (order ++ n ∷ []) in
    if contains n seen then skip else expand

-- The number of all dependencies bounds how often something is pushed.
unfoldable pub all_deps : Map TextSet → ℕ
all_deps [] = 0
all_deps ((k, deps) ∷ edges) = length deps + all_deps edges

unfoldable pub reachable_bounded : Text → Map TextSet → Option (List Text)
reachable_bounded start edges = walk edges (all_deps edges + 1) (start ∷ []) [] []
