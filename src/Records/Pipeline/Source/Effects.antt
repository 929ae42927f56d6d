-- ===== src/Records/Pipeline/Source/Effects.antt =====
-- src/records/pipeline.rs, `commit_source`: what a record of a source does to the state.
use oh_my_document.Prelude.{
  not, List, [], ◌∷◌, ◌++◌, contains, Text, text_eq, Option, none, some, codes, if◌then◌else◌, ◌==◌,
  unwrap_or, retain,
}
use mathlib.Core.Option
use oh_my_document.Prelude.Maps.{Map, TextSet, lookup, insert, insert_key}
use oh_my_document.Records.Json.{string}
use oh_my_document.Records.Commit.{Commit, CommitKind, unclean, clean, atomic_begin, atomic_end}
use oh_my_document.Records.Version.{SourceVersion}
use oh_my_document.Records.Store.{State, Link}
use oh_my_document.Relations.Identity.Ancestry.{payload_text}
use oh_my_document.Relations.Node.{is_range_key, parent_of}
use oh_my_document.Records.Pipeline.{push_to}
use oh_my_document.Records.Pipeline.Marker.{pop_block, add_unclean}

-- `link_pending.entry(id).or_default().insert(commit_id)`, for each of the links.
unfoldable pub add_pending : List Text → Text → Map TextSet → Map TextSet
add_pending [] commit_id pending = pending
add_pending (id ∷ ids) commit_id pending =
    add_pending ids commit_id
      (insert id (insert_key commit_id (unwrap_or (lookup id pending) [])) pending)

-- The ids and the targets of the links from one of the sources.
unfoldable pub links_from : List Text → Map Link → List Text
links_from sources [] = []
links_from sources ((id, l) ∷ links) =
    let rest = links_from sources links in if contains l.source sources then id ∷ rest else rest

unfoldable pub targets_from : Text → Map Link → List Text
targets_from key [] = []
targets_from key ((id, l) ∷ links) =
    let rest = targets_from key links in if l.source == key then l.target ∷ rest else rest

-- The links that start at the object, and those that start where these end.
unfoldable pub oblige : Text → Text → State → State
oblige key commit_id state = record state {
  link_pending =
      add_pending (links_from (targets_from key state.links) state.links) commit_id
        (add_pending (links_from (key ∷ []) state.links) commit_id state.link_pending);
}

-- `obligations.retain(|o| o.commit_id != cid)`, where the object has a dirty state.
unfoldable pub drop_obligation : Text → Text → State → State
drop_obligation key commit_id state = elim (lookup key state.dirty) [
  | none ↦ state
  | some d ↦ record state {
    dirty =
        insert key
          (record d { obligations = retain (λ o. not (o.commit_id == commit_id)) d.obligations })
          state.dirty;
  }
]

-- `match kind`.
unfoldable pub source_effect : CommitKind → Text → Text → Commit → State → State
source_effect unclean key commit_id c state = add_unclean key commit_id c state
source_effect clean key commit_id c state = drop_obligation key commit_id state
source_effect atomic_begin key commit_id c state = record state {
  open_blocks = push_to key commit_id state.open_blocks;
}
source_effect atomic_end key commit_id c state = record state {
  open_blocks = pop_block key state.open_blocks;
}
source_effect _ key commit_id c state = state

-- `b.last()`.
unfoldable pub last_of : List Text → Option Text
last_of [] = none
last_of (x ∷ []) = some x
last_of (x ∷ y ∷ rest) = last_of (y ∷ rest)

-- A record of a range names the innermost open block of its file.
unfoldable pub mark_block : State → Text → Commit → Commit
mark_block state node_key c =
    if is_range_key node_key
    then elim (Option.bind
        (elim (parent_of state node_key) [
          | some parent ↦ some parent
          | none ↦ payload_text (codes "mount") c
        ])
        (λ parent. Option.bind (lookup parent state.open_blocks) last_of)) [
          | none ↦ c
          | some begin ↦ record c { payload = insert (codes "in_block") (string begin) c.payload }
        ]
    else c

-- `with_content`.
unfoldable pub with_content : SourceVersion → SourceVersion
with_content v = record v { content_file = some (codes "content/" ++ v.sha256) }
