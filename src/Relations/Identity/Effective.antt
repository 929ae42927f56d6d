-- ===== src/Relations/Identity/Effective.antt =====
-- src/relations/identity.rs: the effective state of a range, and the resolution of references.
use oh_my_document.Prelude.{
  ℕ, zero, suc, Bool, true, false, not, List, [], ◌∷◌, ◌++◌, Text, text_eq, Option, none, some,
  Result, ok, err, ◌>>=◌, ◌>>◌, refuse_if, map_err, ok_or, codes, if◌then◌else◌, ◌==◌, split_once,
  starts_with, contains, retain, unwrap_or,
}
use mathlib.Core.Option
use oh_my_document.Prelude.Maps.{lookup, keys, contains_key, sort_dedup}
use oh_my_document.Records.Commit.{Commit, atomic_begin, atomic_end}
use oh_my_document.Records.Crates.{Crates}
use oh_my_document.Records.Store.{Store, StoreError, read_commit}
use oh_my_document.Relations.Range.{Range, Mode}
use oh_my_document.Relations.Identity.{
  Kind, range, Ref, RefError, unknown_node, unknown_version, ambiguous_version, ancestry_cycle,
  kind_mismatch, version_mismatch, kind_name,
}
use oh_my_document.Relations.Identity.Ancestry.{
  turns, chain_root, commit_to_node, resolve_version_on_chain,
}
use oh_my_document.Relations.Node.{is_range_key, range_key, parent_of, path_of}
use oh_my_document.Relations.Node.Position.{position_from_value}

-- Source coordinates, of the three kinds of sources.
pub data Position : Type 0 where
  file : (project path : Text) → (encoding : Option Text) → Position
  command : (executable : Text) → (args : List Text) → Position
  git : (project commit path : Text) → Position

pub record RangeSel : Type 0 where
  pub span : ℕ × ℕ
  pub unit : Mode

pub record RefSpec : Type 0 where
  pub kind : Kind
  pub id : Text
  pub position : Option Position
  pub range_sel : Option RangeSel
  pub store : Option Text
  pub version : Option Text
  pub expect_version : Option Text
  pub link_id : Option Text

pub record Resolved : Type 0 where
  pub node : Ref
  pub tip : Text
  pub selected : Text
  pub effective_range_commit_id : Text

pub record EffectiveRangeState : Type 0 where
  pub node_key : Text
  pub root_commit_id : Text
  pub tip_id : Text
  pub effective_range_commit_id : Option Text
  pub source_version_id : Option Text
  pub range_ : Option Range
  pub current_parent_key : Text
  pub current_path : Text

pub data EffectiveRangeError : Type 0 where
  unknown_range missing_parent invalid_position : Text → EffectiveRangeError
  reference : RefError → EffectiveRangeError
  stored : StoreError → EffectiveRangeError

-- The range that a commit gives a body to: none for a structural marker.
unfoldable pub body_of : Commit → Option Range
body_of c =
    if not (c.content_ref == codes "empty")
    then Option.bind (lookup (codes "position") c.payload) position_from_value
    else none

abbrev pub Body : Type 0
Body = Text × Text × Range

-- `effective = Some(…); break`, or on with the loop.
unfoldable pub body_or :
    Text
    → Commit
    → Option Range
    → Result EffectiveRangeError (Option Body)
    → Result EffectiveRangeError (Option Body)
body_or id c (some r) rest = ok (some (id, c.content_ref, r))
body_or id c none rest = rest

module _ ⦃crates : Crates⦄ where
  -- The `while` loop over the chain of a range.
  unfoldable pub body_from :
      Store
      → ℕ
      → (visited : List Text) → (current : Text) → Result EffectiveRangeError (Option Body)
  body_from s fuel visited [] = ok none
  body_from s zero visited (x ∷ current) = err (reference (ancestry_cycle (x ∷ current)))
  body_from s (suc fuel) visited (x ∷ current) =
      if contains (x ∷ current) visited
      then err (reference (ancestry_cycle (x ∷ current)))
      else (map_err stored (read_commit s (x ∷ current)) >>= λ c.
          let rest = body_from s fuel ((x ∷ current) ∷ visited) c.previous_id in
          body_or (x ∷ current) c (body_of c) rest)

  unfoldable pub effective_range_state :
      Store → Text → Result EffectiveRangeError EffectiveRangeState
  unfolding turns
  effective_range_state s node_key = do
    refuse_if (not (is_range_key node_key)) (unknown_range node_key)
    tip_id ← ok_or (lookup node_key s.state.tips) (unknown_range node_key)
    root_commit_id ← map_err reference (chain_root s tip_id)
    refuse_if (not (range_key root_commit_id == node_key)) (unknown_range node_key)
    parent ← ok_or (parent_of s.state node_key) (missing_parent node_key)
    path ← ok_or (path_of s.state parent) (missing_parent node_key)
    effective ← body_from s (turns s) [] tip_id
    ok (record {
      node_key = node_key;
      root_commit_id = root_commit_id;
      tip_id = tip_id;
      effective_range_commit_id = Option.map (λ (b : Body). b.0) effective;
      source_version_id = Option.map (λ (b : Body). b.1) effective;
      range_ = Option.map (λ (b : Body). b.2) effective;
      current_parent_key = parent;
      current_path = path;
    })

  -- `commit_to_node`, and the test that the object is of the kind that was asked for.
  unfoldable pub node_of_commit : Store → RefSpec → Result RefError (Ref × Text)
  node_of_commit s spec = commit_to_node s spec.id >>= λ (key, root).
      let got : Text = elim (split_once b':' key) [ some (kind, _) ↦ kind | none ↦ [] ] in
      if not (got == kind_name spec.kind)
      then err (kind_mismatch (kind_name spec.kind) got)
      else ok (record { kind = spec.kind; id = root }, key)

  -- `match roots.len()`.
  unfoldable pub among_roots : Store → RefSpec → List Text → Result RefError (Ref × Text)
  unfolding node_of_commit
  among_roots s spec [] = node_of_commit s spec
  among_roots s spec (key ∷ []) = ok (
    record { kind = spec.kind; id = elim (split_once b':' key) [ some (_, id) ↦ id | none ↦ [] ] },
    key,
  )
  among_roots s spec (_ ∷ _ ∷ _) = err (ambiguous_version spec.id)

  unfoldable pub resolve_node_ref : Store → RefSpec → Result RefError (Ref × Text)
  unfolding among_roots
  resolve_node_ref s spec =
      let exact = kind_name spec.kind ++ (codes ":" ++ spec.id) in
      if contains_key exact s.state.tips
      then ok (record { kind = spec.kind; id = spec.id }, exact)
      else among_roots s spec (sort_dedup (retain (starts_with exact) (keys s.state.tips)))

  -- `to_string` prints the error, in the words of its derived `Display`.
  unfoldable pub resolve_ref :
      (to_string : EffectiveRangeError → Text) → Store → RefSpec → Result RefError Resolved
  resolve_ref to_string s spec = resolve_node_ref s spec >>= λ (node, node_key).
      ok_or (lookup node_key s.state.tips) (unknown_node node_key) >>= λ tip.
      elim spec.version [
        | some version ↦ resolve_version_on_chain s node_key version
        | none ↦ ok tip
      ]
      >>= λ selected.
          elim node.kind [
            | range ↦
                map_err (λ e. unknown_version (to_string e)) (effective_range_state s node_key)
                >>= λ e. ok (unwrap_or e.effective_range_commit_id [])
            | _ ↦ ok tip
          ]
          >>= λ effective.
              elim spec.expect_version [
                | some expected ↦ refuse_if (not (expected == tip)) (version_mismatch expected tip)
                | none ↦ ok tt
              ]
              >>= λ _. ok (record {
                node = node;
                tip = tip;
                selected = selected;
                effective_range_commit_id = effective;
              })

  unfoldable pub is_marker_commit : Store → Text → Text → Bool
  is_marker_commit s node_key commit_id =
      elim (resolve_version_on_chain s node_key commit_id >>= λ id.
      map_err (λ _. unknown_version id) (read_commit s id)) [
        | ok c ↦ elim c.kind [ atomic_begin ↦ true | atomic_end ↦ true | _ ↦ false ]
        | err _ ↦ false
      ]
