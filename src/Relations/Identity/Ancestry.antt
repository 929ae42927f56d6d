-- ===== src/Relations/Identity/Ancestry.antt =====
-- src/relations/identity.rs: commit ids and prefixes, and the walks along immutable ancestry.
use oh_my_document.Prelude.{
  ℕ, zero, suc, not, List, [], ◌∷◌, Text, text_eq, Option, none, Result, ok, err, ◌>>=◌, map_err,
  ok_or, codes, is_empty, if◌then◌else◌, ◌==◌, split_once, starts_with, contains, retain, length,
  is_none, is_some,
}
use mathlib.Core.Option
use oh_my_document.Prelude.Maps.{lookup, keys, sort_dedup}
use oh_my_document.Records.Json.{as_str}
use oh_my_document.Records.Commit.{Commit, init, import, audit_init, note_init, delete, rename}
use oh_my_document.Records.Crates.{Crates}
use oh_my_document.Records.Store.{Store, read_commit}
use oh_my_document.Relations.Identity.{
  Kind, file, range, peer, audit, note, RefError, bad_form, unknown_node, unknown_version,
  ambiguous_version, ancestry_cycle, missing_predecessor,
}
use oh_my_document.Relations.Node.{file_key, range_key, audit_key, note_key}

unfoldable pub pick : Text → List Text → Result RefError Text
pick value (one ∷ []) = ok one
pick value [] = err (unknown_version value)
pick value (_ ∷ _ ∷ _) = err (ambiguous_version value)

unfoldable pub resolve_commit_id : Store → Text → Result RefError Text
unfolding pick
resolve_commit_id s value =
    if contains value s.state.retained
    then ok value
    else pick value (sort_dedup (retain (starts_with value) s.state.retained))

pub record AuthoritativeObject : Type 0 where
  pub kind : Kind
  pub root_commit_id : Text
  pub location : Option Text
  pub parent : Option Text

unfoldable pub payload_text : Text → Commit → Option Text
payload_text k c = Option.bind (lookup k c.payload) as_str

-- One turn of the loop over the chain, from the root to the tip.
unfoldable pub location_after : Option Text → Commit → Option Text
unfolding payload_text
location_after location c = elim c.kind [
  | delete ↦ none
  | rename ↦ payload_text (codes "target") c
  | _ ↦ if is_none location then payload_text (codes "path") c else location
]

unfoldable pub location_along : Option Text → List (Text × Commit) → Option Text
location_along location [] = location
location_along location ((id, c) ∷ chain) = location_along (location_after location c) chain

unfoldable pub kind_of_root : Text → Commit → Result RefError Kind
unfolding payload_text
kind_of_root id c = if is_some (payload_text (codes "mount") c) then ok range else elim c.kind [
  | init ↦ ok file
  | import ↦ ok file
  | audit_init ↦ ok audit
  | note_init ↦ ok note
  | _ ↦ err (unknown_node id)
]

-- `chain` as the loop leaves it, the root first: the program pushes at the end, and reads it
-- from there.
unfoldable pub describe : Text → List (Text × Commit) → Result RefError AuthoritativeObject
unfolding kind_of_root location_along payload_text
describe tip [] = err (unknown_version tip)
describe tip ((root_id, root) ∷ chain) = kind_of_root root_id root >>= λ kind. ok (record {
  kind = kind;
  root_commit_id = root_id;
  location = elim kind [ file ↦ location_along none ((root_id, root) ∷ chain) | _ ↦ none ];
  parent = payload_text (codes "mount") root;
})

-- No root is a peer: the branch is unreachable in the code.
unfoldable pub key_for : Kind → Text → Text
key_for file root = file_key root
key_for range root = range_key root
key_for audit root = audit_key root
key_for note root = note_key root
key_for peer root = []

-- A walk reads a stored commit at most once: one turn more than there are commits is enough.
unfoldable pub turns : Store → ℕ
turns s = suc (length (keys s.commits))

module _ ⦃crates : Crates⦄ where
  unfoldable pub read_or_missing : Store → Text → Text → Result RefError Commit
  read_or_missing s commit_id current =
      map_err (λ _. missing_predecessor commit_id current) (read_commit s current)

  -- The `loop` of `chain_root`.
  unfoldable pub chain_root_from :
      Store → Text → ℕ → (visited : List Text) → (current : Text) → Result RefError Text
  chain_root_from s commit_id zero visited current = err (ancestry_cycle current)
  chain_root_from s commit_id (suc fuel) visited current =
      if contains current visited
      then err (ancestry_cycle current)
      else (read_or_missing s commit_id current >>= λ c.
          let rest = chain_root_from s commit_id fuel (current ∷ visited) c.previous_id in
          if is_empty c.previous_id then ok current else rest)

  unfoldable pub chain_root : Store → Text → Result RefError Text
  unfolding turns
  chain_root s commit_id = chain_root_from s commit_id (turns s) [] commit_id

  -- The `while` loop of `authoritative_object`.
  unfoldable pub chain_from :
      Store
      → Text
      → ℕ
      → (visited : List Text) → (current : Text) → List (Text × Commit)
      → Result RefError (List (Text × Commit))
  chain_from s tip fuel visited [] chain = ok chain
  chain_from s tip zero visited (x ∷ current) chain = err (ancestry_cycle (x ∷ current))
  chain_from s tip (suc fuel) visited (x ∷ current) chain =
      if contains (x ∷ current) visited
      then err (ancestry_cycle (x ∷ current))
      else (read_or_missing s tip (x ∷ current) >>= λ c.
          chain_from s tip fuel ((x ∷ current) ∷ visited) c.previous_id ((x ∷ current, c) ∷ chain))

  unfoldable pub authoritative_object : Store → Text → Result RefError AuthoritativeObject
  unfolding turns
  authoritative_object s tip = chain_from s tip (turns s) [] tip [] >>= describe tip

  unfoldable pub kind_for_root : Store → Text → Result RefError Kind
  kind_for_root s root = authoritative_object s root >>= λ object. ok object.kind

  unfoldable pub commit_to_node : Store → Text → Result RefError (Text × Text)
  commit_to_node s commit_id = resolve_commit_id s commit_id >>= λ selected.
      chain_root s selected >>= λ root.
      kind_for_root s root >>= λ kind. ok (key_for kind root, root)

  unfoldable pub resolve_version_on_chain : Store → Text → Text → Result RefError Text
  resolve_version_on_chain s node_key value = resolve_commit_id s value >>= λ selected.
      chain_root s selected >>= λ selected_root.
      ok_or (split_once b':' node_key) bad_form >>= λ (_, expected_root).
      if not (selected_root == expected_root) then err (unknown_version value) else ok selected
