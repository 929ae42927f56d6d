-- ===== src/Records/Session/Index.antt =====
-- src/records/store.rs, `validate_identity_index`: what is checked of the indexes when a store is
-- read.
pub mod Sound
mod Tests
use oh_my_document.Prelude.{
  Bool, true, false, not, ◌&&◌, ◌||◌, List, [], ◌∷◌, ◌++◌, any, contains, starts_with, Text,
  text_eq, Option, none, some, codes, Result, ok, err, ◌>>=◌, ◌>>◌, map_err, ok_or, refuse_if,
  if◌then◌else◌, ◌==◌, is_empty, strip_prefix, split_once,
}
use oh_my_document.Prelude.Equality.{option_beq}
use oh_my_document.Prelude.Maps.{Map, lookup, contains_key, keys}
use oh_my_document.Records.Crates.{Crates}
use oh_my_document.Records.Store.{State, Store, StoreError, invalid_record, read_commit}
use oh_my_document.Records.Pipeline.{is_import}
use oh_my_document.Relations.Identity.{Kind, kind_name}
use oh_my_document.Relations.Identity.Ancestry.{AuthoritativeObject, authoritative_object}
use oh_my_document.Relations.Node.{parent_of}
use oh_my_document.Records.Session.{Session, World}
use oh_my_document.Records.Session.Identity.{about, project_registration}

-- The locations that were met: whether they are of statistics, and the node.
abbrev pub Seen : Type 0
Seen = List ((Bool × Text) × Text)

unfoldable pub is_seen : Bool → Text → Seen → Bool
is_seen statistics location [] = false
is_seen statistics location (((other, path), node) ∷ seen) =
    let rest = is_seen statistics location seen in
    (if other then statistics else not statistics) && path == location || rest

-- `projected_ranges`, the children of all mounts so far: none may be mounted twice.
unfoldable pub add_children : List Text → List Text → Result StoreError (List Text)
add_children [] projected = ok projected
add_children (child ∷ children) projected =
    let rest = add_children children (child ∷ projected) in
    if contains child projected
    then err (invalid_record (codes "range object is mounted more than once: " ++ child))
    else rest

unfoldable pub project_ranges : Map (List Text) → List Text → Result StoreError (List Text)
project_ranges [] projected = ok projected
project_ranges ((parent, children) ∷ mounts) projected =
    add_children children projected >>= λ more. project_ranges mounts more

abbrev pub bad : Text → Text → StoreError
bad message node = invalid_record (message ++ node)

-- Audits and notes have no location, and hang on nothing.
unfoldable pub check_journal : State → List Text → (node : Text) → Result StoreError (Unit {0})
check_journal state projected node =
    refuse_if (contains_key node state.locations)
      (bad (codes "journal object has file location entry: ") node)
    >> refuse_if (contains node projected)
        (bad (codes "journal object is mounted as a range: ") node)

-- A range hangs on the parent that its root names.
unfoldable pub check_range :
    State → List Text → (node : Text) → (parent : Option Text) → Result StoreError (Unit {0})
check_range state projected node parent = do
  refuse_if (contains_key node state.locations)
      (bad (codes "range object has file location entry: ") node)
  refuse_if (not (option_beq (parent_of state node) parent))
      (bad (codes "range mount mismatch for ") node)
  refuse_if (not (contains node projected)) (bad (codes "range object is not mounted: ") node)

-- Only a live file has a location.
unfoldable pub check_locations : State → List Text → Result StoreError (Unit {0})
check_locations state [] = ok tt
check_locations state (node ∷ nodes) =
    refuse_if (not (contains_key node state.tips) || not (starts_with (codes "file:") node))
      (bad (codes "orphan location index entry: ") node)
    >> check_locations state nodes

unfoldable pub check_children : State → List Text → Result StoreError (Unit {0})
check_children state [] = ok tt
check_children state (child ∷ children) =
    refuse_if (not (contains_key child state.tips) || not (starts_with (codes "range:") child))
      (bad (codes "range mount child is not a live range object: ") child)
    >> check_children state children

unfoldable pub check_mounts : State → Map (List Text) → Result StoreError (Unit {0})
check_mounts state [] = ok tt
check_mounts state ((parent, children) ∷ mounts) = do
  refuse_if (not (contains_key parent state.tips) || not (starts_with (codes "file:") parent))
      (bad (codes "range mount parent is not a live file object: ") parent)
  check_children state children
  check_mounts state mounts

module _ ⦃crates : Crates⦄ where
  -- A file that is there has the location that its chain ends with, and none shares it.
  unfoldable pub check_file :
      Store
      → List Text
      → Seen
      → (node root : Text) → (location : Option Text) → Result StoreError Seen
  check_file s projected seen node root location =
      refuse_if (contains node projected) (bad (codes "file object is mounted as a range: ") node)
      >> elim location [
        | none ↦
            refuse_if (contains_key node s.state.locations)
              (bad (codes "tombstoned file has active location entry: ") node)
            >> ok seen
        | some path ↦
            refuse_if (not (option_beq (lookup node s.state.locations) (some path)))
              (bad (codes "location index mismatch for ") node)
            >> (read_commit s root >>= λ c.
                refuse_if (is_seen (is_import c.kind) path seen)
                  (bad (codes "duplicate current location for ") node)
                >> ok (((is_import c.kind, path), node) ∷ seen))
      ]

  -- By the kind of the key.
  unfoldable pub check_kind :
      Store
      → List Text
      → Seen
      → (node kind root : Text) → AuthoritativeObject
      → Result StoreError Seen
  check_kind s projected seen node kind root a =
      if kind == codes "file"
      then check_file s projected seen node root a.location
      else if kind == codes "audit" || kind == codes "note"
      then (check_journal s.state projected node >> ok seen)
      else (check_range s.state projected node a.parent >> ok seen)

  -- One turn of the loop over the tips. `error` is the text of an error of the ancestry.
  unfoldable pub check_tip : Store → List Text → Seen → (node tip : Text) → Result StoreError Seen
  check_tip s projected seen node tip = do
    (kind, root) ← ok_or (split_once b':' node) (bad (codes "invalid object key in tips: ") node)
    refuse_if
        (not (contains kind (codes "file" ∷ codes "range" ∷ codes "audit" ∷ codes "note" ∷ []))
          || is_empty root)
        (bad (codes "invalid object key in tips: ") node)
    a ← map_err (λ _. bad [] node) (authoritative_object s tip)
    refuse_if (not (a.root_commit_id == root)) (
        invalid_record (
          codes "object index mismatch: "
          ++ about node (codes " points to chain rooted at ") a.root_commit_id))
    refuse_if (not (kind == kind_name a.kind)) (bad (codes "object kind mismatch: ") node)
    check_kind s projected seen node kind root a

  unfoldable pub check_tips : Store → List Text → Map Text → Seen → Result StoreError Seen
  check_tips s projected [] seen = ok seen
  check_tips s projected ((node, tip) ∷ tips) seen =
      check_tip s projected seen node tip >>= λ more. check_tips s projected tips more

  unfoldable pub check_selected : World → Session → List Text → Result StoreError (Unit {0})
  check_selected world s [] = ok tt
  check_selected world s (key ∷ rest) =
      (elim (strip_prefix (codes "project:") key) [
        | none ↦ ok tt
        | some alias ↦ project_registration world s alias >>= λ _. ok tt
      ])
      >> check_selected world s rest

  unfoldable pub validate_identity_index : World → Session → Result StoreError (Unit {0})
  validate_identity_index world s = do
    let state = s.stored.state
    check_selected world s (keys state.registrations)
    projected ← project_ranges state.mounts []
    _ ← check_tips s.stored projected state.tips []
    check_locations state (keys state.locations)
    check_mounts state state.mounts
