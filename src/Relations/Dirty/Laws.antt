-- ===== src/Relations/Dirty/Laws.antt =====
-- What propagation reports, and what it leaves alone; obligations stack and are never merged.
use oh_my_document.Prelude.{
  ◌+◌, Bool, true, false, ◌||◌, List, [], ◌∷◌, ◌++◌, Text, text_eq, text_beq_iff, none, some, ok,
  ◌==◌, ◌≡◌, ◌⊎◌, inl, inr, refl, arith, contains, length, Option-cases, if◌then◌else◌, ap,
  length-append, ⊎_elim, is_empty,
}
use oh_my_document.Prelude.Maps.{Map, TextSet, lookup, contains_key, lookup-insert}
use oh_my_document.Relations.Dirty.{
  DirtyReason, dependency_dangling, explicit_unclean, DirtyState, Obligation, DanglingHop, mark,
  push_unclean, top_of, is_dirty, first_missing, propagate,
}

-- The dependency stands in the edges of the dependent.
abbrev pub DependsOn : Map TextSet → Text → Text → Type 0
DependsOn [] u d = ⊥
DependsOn ((v, deps) ∷ edges) u d = ((v ≡ u) × (contains d deps ≡ true)) ⊎ DependsOn edges u d

first_missing-none :
    (present : Text → Bool) (deps : TextSet) (d : Text)
    → first_missing present deps ≡ none
    → contains d deps ≡ true
    → present d ≡ true
unfolding first_missing contains
first_missing-none present [] d h m = cc
first_missing-none present (x ∷ deps) d h m =
    ground (arith, text_beq_iff d x, first_missing-none present deps d, λ (e : d ≡ x). ap present e)

mark-is_dirty :
    (c d : Text) (r : DirtyReason) (s : DirtyState)
    → is_dirty d (mark c r s) ≡ (c == d || is_dirty d s)
unfolding is_dirty mark contains_key
mark-is_dirty c d r s = ground (arith, lookup-insert c d r s.dirty, text_beq_iff c d)

-- What a propagation that stops tells.
pub record IsBroken (present : Text → Bool) (edges : Map TextSet) (s t : DirtyState)
    (hop : DanglingHop) : Type 0 where
  pub depends : DependsOn edges hop.dependent hop.missing
  pub missing : present hop.missing ≡ false
  pub marked : t ≡ mark hop.dependent (dependency_dangling hop.missing) s

-- A propagation that ends well has met no dependency that is not present, and changes nothing.
pub propagate-ok :
    (present : Text → Bool) (edges : Map TextSet) (s : DirtyState)
    → (propagate present edges s).1 ≡ ok tt
    → ((propagate present edges s).0 ≡ s) × ((u d : Text) → DependsOn edges u d → present d ≡ true)
unfolding propagate
propagate-ok present [] s h = (refl, λ u d b. absurd b)
propagate-ok present ((v, deps) ∷ edges) s h = elim (Option-cases (first_missing present deps)) [
  | inl e ↦
      let (same, here) = propagate-ok present edges s (rw (e, propagate) at h) in
      (
        rw (e, propagate) same,
        λ u d b. ⊎_elim (λ (_, m). first_missing-none present deps d e m) (here u d) b,
      )
  | inr (d, e) ↦ absurd (cc (rw (e, propagate) at h))
]

-- Every obligation stands on the one below it.
abbrev pub IsStacked : Text → List Obligation → Type 0
IsStacked below [] = Unit
IsStacked below (o ∷ os) = (o.atop ≡ below) × IsStacked o.commit_id os

IsStacked-concat :
    (below : Text) (os : List Obligation) (o : Obligation)
    → IsStacked below os
    → o.atop ≡ (if is_empty os then below else top_of os)
    → IsStacked below (os ++ o ∷ [])
unfolding top_of
IsStacked-concat below [] o i h = (h, tt)
IsStacked-concat below (p ∷ []) o i h = (i.0, (h, tt))
IsStacked-concat below (p ∷ q ∷ os) o i h = (i.0, IsStacked-concat p.commit_id (q ∷ os) o i.1 h)

atop_lem : (os : List Obligation) → top_of os ≡ (if is_empty os then [] else top_of os)
unfolding top_of
atop_lem [] = refl
atop_lem (o ∷ os) = refl

-- An obligation is put on top of all that were there, whether or not one of them is for the same
-- commit, so none is merged with another; the commit is dirty, and no commit stops being so.
pub push_unclean-IsStacked :
    (c reason : Text) (s : DirtyState)
    → IsStacked [] s.obligations
    → let t = push_unclean c reason s in
      IsStacked [] t.obligations
      × (length t.obligations ≡ length s.obligations + 1)
      × (lookup c t.dirty ≡ some (explicit_unclean reason))
      × ((d : Text) → is_dirty d t ≡ (c == d || is_dirty d s))
unfolding push_unclean is_dirty contains_key
push_unclean-IsStacked c reason s i =
    let o : Obligation = record { commit_id = c; reason = reason; atop = top_of s.obligations } in
    (
      IsStacked-concat [] s.obligations o i (atop_lem s.obligations),
      omega (arith, length-append s.obligations (o ∷ [])),
      ground (arith, lookup-insert c c (explicit_unclean reason) s.dirty, text_beq_iff c c),
      λ d. ground (arith, lookup-insert c d (explicit_unclean reason) s.dirty),
    )
