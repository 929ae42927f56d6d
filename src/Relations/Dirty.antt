-- ===== src/Relations/Dirty.antt =====
-- src/relations/dirty.rs: dirty commits, stacked obligations, propagation along dependencies.
mod Laws
pub mod Reachable
mod Tests
use oh_my_document.Prelude.{
  ℕ, Bool, true, false, not, List, [], ◌∷◌, ◌++◌, if◌then◌else◌, Text, text_eq, Option, none, some,
  Result, ok, err, ◌==◌, unwrap_or,
}
use oh_my_document.Prelude.Maps.{Map, TextSet, lookup, insert, contains_key}

pub data DirtyReason : Type 0 where
  content_changed end_adjacent_insertion : DirtyReason
  dependency_dangling : (dependency : Text) → DirtyReason
  explicit_unclean : (reason : Text) → DirtyReason

pub record Obligation : Type 0 where
  pub commit_id : Text
  pub reason : Text
  pub atop : Text

pub record DirtyState : Type 0 where
  pub dirty : Map DirtyReason
  pub obligations : List Obligation

pub record DanglingHop : Type 0 where
  pub dependent : Text
  pub missing : Text

-- `entry(commit).or_insert(reason)`.
unfoldable pub mark : Text → DirtyReason → DirtyState → DirtyState
mark commit reason s =
    if contains_key commit s.dirty then s else record s { dirty = insert commit reason s.dirty }

-- `last().map(|o| o.commit_id).unwrap_or_default()`.
unfoldable pub top_of : List Obligation → Text
top_of [] = []
top_of (o ∷ []) = o.commit_id
top_of (o ∷ p ∷ os) = top_of (p ∷ os)

unfoldable pub push_unclean : Text → Text → DirtyState → DirtyState
push_unclean commit_id reason s = record s {
  obligations =
      s.obligations
      ++ record { commit_id = commit_id; reason = reason; atop = top_of s.obligations } ∷ [];
  dirty = insert commit_id (explicit_unclean reason) s.dirty;
}

unfoldable pub is_dirty : Text → DirtyState → Bool
is_dirty commit s = contains_key commit s.dirty

-- The inner loop: the first dependency that is not present. (The set of visited pairs, which is
-- only written to, is left out.)
unfoldable pub first_missing : (Text → Bool) → TextSet → Option Text
first_missing present [] = none
first_missing present (d ∷ deps) = if not (present d) then some d else first_missing present deps

unfoldable pub propagate :
    (Text → Bool) → Map TextSet → DirtyState → DirtyState × Result DanglingHop (Unit {0})
propagate present [] s = (s, ok tt)
propagate present ((dependent, deps) ∷ edges) s =
    let rest = propagate present edges s in
    elim (first_missing present deps) [
      | some d ↦ (
        mark dependent (dependency_dangling d) s,
        err (record { dependent = dependent; missing = d }),
      )
      | none ↦ rest
    ]
