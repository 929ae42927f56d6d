-- ===== src/Records/Pipeline/Marker.antt =====
-- src/records/pipeline.rs, `commit_marker`: records that observe no file.
use oh_my_document.Prelude.{
  Bool, false, not, ◌&&◌, List, [], ◌∷◌, Text, Option, none, some, codes, Result, ok, ◌>>=◌, ◌>>◌,
  map_err, if◌then◌else◌, unwrap_or,
}
use mathlib.Core.Option
use oh_my_document.Prelude.Maps.{Map, lookup, insert, insert_key, contains_key}
use oh_my_document.Records.Json.{Value, boolean, Payload}
use oh_my_document.Records.Crates.{Crates}
use oh_my_document.Records.Commit.{
  Commit, CommitKind, unclean, atomic_begin, atomic_end, tag, scope_adjust,
}
use oh_my_document.Records.Store.{State, Store}
use oh_my_document.Relations.Dirty.{DirtyState, push_unclean}
use oh_my_document.Relations.Identity.Ancestry.{payload_text}
use oh_my_document.Relations.Node.{is_file_key}
use oh_my_document.Records.Pipeline.{
  Env, Gate, Publication, PipelineError, store, writable, is_init, is_import, tip_of, push_to,
  published_node_key, advance, range_tips_of, object_key, canonicalize_mount, place_object,
  structural, seal,
}

-- `stack.pop()`, where the file has a stack.
unfoldable pub without_last : List Text → List Text
without_last [] = []
without_last (x ∷ []) = []
without_last (x ∷ y ∷ rest) = x ∷ without_last (y ∷ rest)

unfoldable pub pop_block : Text → Map (List Text) → Map (List Text)
pop_block key blocks = elim (lookup key blocks) [
  | none ↦ blocks
  | some stack ↦ insert key (without_last stack) blocks
]

-- `as_bool`.
unfoldable pub as_bool : Value → Option Bool
as_bool (boolean b) = some b
as_bool _ = none

abbrev pub no_dirt : DirtyState
no_dirt = record { dirty = []; obligations = [] }

unfoldable pub add_unclean : Text → Text → Commit → State → State
add_unclean key commit_id c state = record state {
  dirty =
      insert key
        (push_unclean commit_id (unwrap_or (payload_text (codes "reason") c) [])
          (unwrap_or (lookup key state.dirty) no_dirt))
        state.dirty;
}

unfoldable pub add_tag : Text → Commit → State → State
add_tag key c state = elim (payload_text (codes "tag") c) [
  | none ↦ state
  | some name ↦ record state {
    tags = insert key (insert_key name (unwrap_or (lookup key state.tags) [])) state.tags;
  }
]

unfoldable pub add_rule : Commit → State → State
add_rule c state = elim (payload_text (codes "rule") c) [
  | none ↦ state
  | some rule ↦ record state {
    tag_rules =
        insert rule
          (record {
            rule = rule;
            level = unwrap_or (payload_text (codes "level") c) (codes "fail");
            skip = unwrap_or (Option.bind (lookup (codes "skip") c.payload) as_bool) false;
          })
          state.tag_rules;
  }
]

-- `match kind`.
unfoldable pub marker_effect : CommitKind → Text → Text → Commit → State → State
marker_effect unclean key commit_id c state = add_unclean key commit_id c state
marker_effect atomic_begin key commit_id c state = record state {
  open_blocks = push_to key commit_id state.open_blocks;
}
marker_effect atomic_end key commit_id c state = record state {
  open_blocks = pop_block key state.open_blocks;
}
marker_effect tag key commit_id c state = add_tag key c state
marker_effect scope_adjust key commit_id c state = add_rule c state
marker_effect _ key commit_id c state = state

module _ ⦃crates : Crates⦄ (env : Env) where
  -- The record and its id, once the store may be written.
  unfoldable pub marker_record :
      Gate → Store → (node_key : Text) → CommitKind → Payload → Result PipelineError (Commit × Text)
  marker_record gate s node_key kind payload = do
    let is_first = not (contains_key node_key s.state.tips)
    if is_init kind && is_first then ok tt else map_err store gate.expected
    let c : Commit = record (structural env 0 kind (tip_of s.state node_key) payload) {
      range_tips = range_tips_of s.state node_key is_first;
    }
    commit_id ← seal env c is_first []
    ok (c, commit_id)

  unfoldable pub place_marker :
      Store → (node_key : Text) → CommitKind → Commit → Text → Result PipelineError State
  place_marker s node_key kind c commit_id =
      let is_first = not (contains_key node_key s.state.tips) in
      let key = published_node_key node_key is_first commit_id in
      place_object s c (is_first && is_file_key node_key) is_first (is_import kind) key
        (advance key commit_id s.state)

  unfoldable pub marked : (key : Text) → CommitKind → Commit → Text → State → Publication
  marked key kind c commit_id placed = record {
    record_ = c;
    commit_id = commit_id;
    version = none;
    content = none;
    new_state = marker_effect kind key commit_id c placed;
    answer = commit_id;
  }

  unfoldable pub commit_marker :
      Gate → Store → (locator : Text) → CommitKind → Payload → Result PipelineError Publication
  commit_marker gate s locator kind payload =
      let node_key = object_key s locator in
      writable gate
      >> (marker_record gate s node_key kind (canonicalize_mount s payload) >>= λ made.
          place_marker s node_key kind made.0 made.1 >>= λ placed. ok (
            marked (published_node_key node_key (not (contains_key node_key s.state.tips)) made.1)
              kind made.0 made.1 placed))
