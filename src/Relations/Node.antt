-- ===== src/Relations/Node.antt =====
-- src/relations/node.rs: object keys, and the locations and mounts that the state projects.
pub mod Position
pub mod Decimal
mod Tests
use oh_my_document.Prelude.{
  ℕ, Bool, true, false, ◌&&◌, ◌||◌, List, [], ◌∷◌, ◌++◌, Text, text_eq, Option, none, some, codes,
  starts_with, contains, ◌==◌, if◌then◌else◌, retain,
}
use oh_my_document.Prelude.Maps.{Map, lookup, keys}
use oh_my_document.Records.Store.{State}

unfoldable pub file_key : Text → Text
file_key root = codes "file:" ++ root

unfoldable pub range_key : Text → Text
range_key root = codes "range:" ++ root

unfoldable pub audit_key : Text → Text
audit_key root = codes "audit:" ++ root

unfoldable pub note_key : Text → Text
note_key root = codes "note:" ++ root

unfoldable pub peer_key : Text → Text → Text
peer_key store_id remote_node_key = codes "peer:" ++ (store_id ++ (codes ":" ++ remote_node_key))

unfoldable pub is_file_key : Text → Bool
is_file_key key = starts_with (codes "file:") key

unfoldable pub is_range_key : Text → Bool
is_range_key key = starts_with (codes "range:") key

unfoldable pub is_peer_key : Text → Bool
is_peer_key key = starts_with (codes "peer:") key

unfoldable pub is_audit_key : Text → Bool
is_audit_key key = starts_with (codes "audit:") key

unfoldable pub is_note_key : Text → Bool
is_note_key key = starts_with (codes "note:") key

unfoldable pub is_journal_key : Text → Bool
is_journal_key key = is_audit_key key || is_note_key key

-- The first parent whose children hold the key.
unfoldable pub parent_in : Map (List Text) → Text → Option Text
parent_in [] key = none
parent_in ((parent, children) ∷ mounts) key =
    if contains key children then some parent else parent_in mounts key

unfoldable pub parent_of : State → Text → Option Text
unfolding parent_in
parent_of state key = parent_in state.mounts key

unfoldable pub path_of : State → Text → Option Text
path_of state node = lookup node state.locations

-- The matches of the iterator, and its first element if it has no second.
unfoldable pub files_at : Map Text → Text → List Text
unfolding is_file_key
files_at [] path = []
files_at ((node, current) ∷ locations) path =
    let rest = files_at locations path in
    if current == path && is_file_key node then node ∷ rest else rest

abbrev pub unique : List Text → Option Text
unique [] = none
unique (first ∷ []) = some first
unique (first ∷ _ ∷ _) = none

unfoldable pub file_at_path : State → Text → Option Text
unfolding files_at
file_at_path state path = unique (files_at state.locations path)
