-- ===== src/Records/Pipeline/Links.antt =====
-- src/records/pipeline.rs, `commit_link`, `plan_xlink` and `commit_adapt`: links and their pending
-- changes.
use oh_my_document.Prelude.{
  ℕ, Bool, true, not, ◌&&◌, ◌||◌, List, [], ◌∷◌, ◌++◌, Text, text_eq, none, some, codes, Result, ok,
  ◌>>=◌, ◌>>◌, map_err, refuse_if, if◌then◌else◌, ◌==◌, is_empty, retain, unwrap_or,
}
use oh_my_document.Prelude.Maps.{TextSet, lookup, insert, contains_key}
use oh_my_document.Records.Json.{Items, nil, cons, string, boolean, array, Payload}
use oh_my_document.Records.Crates.{Crates}
use oh_my_document.Records.Commit.{link, adapt}
use oh_my_document.Records.Store.{State, Store, Link}
use oh_my_document.Relations.Node.{is_range_key, is_journal_key, peer_key}
use oh_my_document.Relations.Identity.Ancestry.{resolve_version_on_chain}
use oh_my_document.Records.Pipeline.{
  Env, Gate, Publication, PipelineError, commit, checked, tip_of, advance, structural, seal,
}

unfoldable pub endpoint_ok : Text → Bool
endpoint_ok k = is_range_key k || is_journal_key k

-- A new link has no pending changes, where its id has none yet.
unfoldable pub add_link : Link → State → State
add_link l state = record state {
  links = insert l.link_id l state.links;
  link_pending =
      insert l.link_id (unwrap_or (lookup l.link_id state.link_pending) []) state.link_pending;
}

unfoldable pub link_payload : Link → Text → Payload
link_payload l reason = insert (codes "reason") (string reason) (
    insert (codes "target_version") (string l.target_version) (
      insert (codes "target") (string l.target) (
        insert (codes "source_version") (string l.source_version) (
          insert (codes "source") (string l.source)
            (insert (codes "link_id") (string l.link_id) [])))))

unfoldable pub changes_value : List Text → Items
changes_value [] = nil
changes_value (c ∷ changes) = cons (string c) (changes_value changes)

unfoldable pub adapt_payload : Text → List Text → Text → (stop no_reason : Bool) → Payload
adapt_payload link_id changes reason stop no_reason =
    let payload : Payload =
      insert (codes "changes") (array (changes_value changes))
        (insert (codes "link_id") (string link_id) []) in
    insert (codes "stop") (boolean stop) (
      if no_reason
      then insert (codes "no_reason") (boolean true) payload
      else insert (codes "reason") (string reason) payload)

-- `pend.remove(change)`, for each of the changes.
unfoldable pub drop_changes : List Text → TextSet → TextSet
drop_changes [] pending = pending
drop_changes (c ∷ changes) pending = drop_changes changes (retain (λ p. not (p == c)) pending)

unfoldable pub acknowledge : Text → List Text → State → State
acknowledge link_id changes state = elim (lookup link_id state.link_pending) [
  | none ↦ state
  | some pending ↦ record state {
    link_pending = insert link_id (drop_changes changes pending) state.link_pending;
  }
]

pub data ExternalLinkDirection : Type 0 where
  peer_to_local local_to_peer : ExternalLinkDirection

-- The ends of a link between two stores. Its creator is not known before the record is.
unfoldable pub external_link :
    ExternalLinkDirection
    → (peer_store_id peer_endpoint peer_version local_endpoint local_version link_id : Text) → Link
external_link peer_to_local store_id peer_end peer_version local local_version link_id = record {
  link_id = link_id;
  source = peer_key store_id peer_end;
  target = local;
  source_version = peer_version;
  target_version = local_version;
  created_by = [];
}
external_link local_to_peer store_id peer_end peer_version local local_version link_id = record {
  link_id = link_id;
  source = local;
  target = peer_key store_id peer_end;
  source_version = local_version;
  target_version = peer_version;
  created_by = [];
}

module _ ⦃crates : Crates⦄ (env : Env) where
  unfoldable pub endpoint_version :
      Store → (name : Text) → (endpoint version : Text) → Result PipelineError Text
  endpoint_version s name endpoint version =
      map_err (λ e. commit (name ++ env.ref_error_text e))
        (resolve_version_on_chain s endpoint version)

  -- The record of a link, from the draw of its version on, and the state with the link.
  unfoldable pub plan_link :
      (draw : ℕ) → Store → (node_key : Text) → Link → Payload → Result PipelineError Publication
  plan_link draw s node_key l payload = do
    let is_first = not (contains_key node_key s.state.tips)
    let c = structural env draw link (tip_of s.state node_key) payload
    commit_id ← seal env c is_first []
    ok (record {
      record_ = c;
      commit_id = commit_id;
      version = none;
      content = none;
      new_state =
          add_link (record l { created_by = commit_id }) (advance node_key commit_id s.state);
      answer = l.link_id;
    })

  unfoldable pub commit_link :
      Gate
      → Store
      → (node_key source source_version target target_version reason : Text)
      → Result PipelineError Publication
  unfolding endpoint_version plan_link
  commit_link gate s node_key source source_version target target_version reason = do
    refuse_if (not (endpoint_ok source) || not (endpoint_ok target)) (
        commit (
          codes
            "local links connect local ranges or journal objects; use a cross-store link entry for peer endpoints"))
    checked gate
    refuse_if (not (contains_key source s.state.tips))
        (commit (codes "link source range does not exist: " ++ source))
    refuse_if (not (contains_key target s.state.tips))
        (commit (codes "link target range does not exist: " ++ target))
    _ ← endpoint_version s (codes "link source version: ") source source_version
    _ ← endpoint_version s (codes "link target version: ") target target_version
    let l : Link = record {
      link_id = crates.hex_encode (env.fill 0);
      source = source;
      target = target;
      source_version = source_version;
      target_version = target_version;
      created_by = [];
    }
    plan_link 1 s node_key l (link_payload l reason)

  unfoldable pub plan_xlink :
      Store
      → (node_key : Text) → ExternalLinkDirection
      → (peer_store_id peer_endpoint peer_version local_endpoint local_version : Text)
      → (link_id reason : Text) → Result PipelineError Publication
  unfolding plan_link
  plan_xlink s node_key direction peer_store_id peer_endpoint peer_version local local_version
        link_id reason =
      let l =
        external_link direction peer_store_id peer_endpoint peer_version local local_version
          link_id in
      plan_link 0 s node_key l
        (insert (codes "peer_store_id") (string peer_store_id) (link_payload l reason))

  unfoldable pub commit_adapt :
      Gate
      → Store
      → (node_key link_id : Text) → (changes : List Text) → (reason : Text)
      → (stop no_reason : Bool) → Result PipelineError Publication
  commit_adapt gate s node_key link_id changes reason stop no_reason = do
    refuse_if (is_empty link_id) (commit (codes "adapt requires an explicit link_id"))
    refuse_if (is_empty reason && not (stop && no_reason))
        (commit (codes "adapt requires a reason"))
    refuse_if (is_empty changes) (commit (codes "adapt/stop requires explicitly selected changes"))
    checked gate
    refuse_if (not (contains_key link_id s.state.links))
        (commit (codes "unknown link_id: " ++ link_id))
    let is_first = not (contains_key node_key s.state.tips)
    let c =
        structural env 0 adapt (tip_of s.state node_key)
          (adapt_payload link_id changes reason stop no_reason)
    commit_id ← seal env c is_first []
    ok (record {
      record_ = c;
      commit_id = commit_id;
      version = none;
      content = none;
      new_state = acknowledge link_id changes (advance node_key commit_id s.state);
      answer = commit_id;
    })
