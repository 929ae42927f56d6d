-- ===== src/Records/Pipeline/Effects.antt =====
-- What the commands do to blocks, to pending changes and to links.
use oh_my_document.Prelude.{
  Bool, true, not, ◌&&◌, ◌||◌, List, [], ◌∷◌, ◌++◌, Text, text_eq, text_beq_iff, none, some,
  contains, unwrap_or, ok, ◌==◌, if◌then◌else◌, Option-cases, Result-cases, inl, inr, ◌≡◌, refl,
  arith, retain, contains-retain,
}
use oh_my_document.Prelude.Maps.{
  Map, TextSet, lookup, insert, lookup-insert, contains_key, insert_key, contains-insert_key,
}
use oh_my_document.Records.Crates.{Crates}
use oh_my_document.Records.Store.{State, Store, Link}
use oh_my_document.Relations.Identity.Ancestry.{resolve_version_on_chain}
use oh_my_document.Relations.Identity.Named.{Names, resolve_version_on_chain-Names}
use oh_my_document.Records.Pipeline.{Env, Gate, Publication, push_to, advance}
use oh_my_document.Records.Pipeline.Marker.{without_last, pop_block}
use oh_my_document.Records.Pipeline.Links.{
  endpoint_ok, add_link, drop_changes, acknowledge, commit_link, commit_adapt, endpoint_version,
  plan_link,
}
use oh_my_document.Records.Pipeline.Source.{add_pending}

without_last-append : (stack : List Text) (x : Text) → without_last (stack ++ x ∷ []) ≡ stack
unfolding without_last
without_last-append [] x = refl
without_last-append (y ∷ []) x = refl
without_last-append (y ∷ z ∷ stack) x = ground (arith, without_last-append (z ∷ stack) x)

-- The end of a block takes away what its begin has put on the stack of its file, and touches no
-- other stack.
pub pop_block-push_to :
    (key other begin : Text) (blocks : Map (List Text))
    → lookup other (pop_block key (push_to key begin blocks))
      ≡ (if key == other then some (unwrap_or (lookup key blocks) []) else lookup other blocks)
unfolding pop_block push_to
pop_block-push_to key other begin blocks = ground (
  arith,
  lookup-insert key key (unwrap_or (lookup key blocks) [] ++ begin ∷ []) blocks,
  lookup-insert key other (unwrap_or (lookup key blocks) [] ++ begin ∷ []) blocks,
  lookup-insert key other (without_last (unwrap_or (lookup key blocks) [] ++ begin ∷ []))
      (insert key (unwrap_or (lookup key blocks) [] ++ begin ∷ []) blocks),
  without_last-append (unwrap_or (lookup key blocks) []) begin,
  text_beq_iff key key,
)

-- `change` is pending for the link.
abbrev pub is_pending : Text → Text → Map TextSet → Bool
is_pending change link_id pending = contains change (unwrap_or (lookup link_id pending) [])

pub add_pending_lem :
    (ids : List Text) (commit_id change link_id : Text) (pending : Map TextSet)
    → is_pending change link_id (add_pending ids commit_id pending)
      ≡ (is_pending change link_id pending || (contains link_id ids && change == commit_id))
unfolding add_pending contains
add_pending_lem [] commit_id change link_id pending = ground arith
add_pending_lem (id ∷ ids) commit_id change link_id pending = ground (
  arith,
  add_pending_lem ids commit_id change link_id
      (insert id (insert_key commit_id (unwrap_or (lookup id pending) [])) pending),
  lookup-insert id link_id (insert_key commit_id (unwrap_or (lookup id pending) [])) pending,
  contains-insert_key change commit_id (unwrap_or (lookup id pending) []),
  text_beq_iff id link_id,
  text_beq_iff link_id id,
)

drop_changes_lem :
    (changes : List Text) (change : Text) (pending : TextSet)
    → contains change (drop_changes changes pending)
      ≡ (contains change pending && not (contains change changes))
unfolding drop_changes contains
drop_changes_lem [] change pending = ground arith
drop_changes_lem (c ∷ changes) change pending = ground (
  arith,
  drop_changes_lem changes change (retain (λ p. not (p == c)) pending),
  contains-retain (λ p. not (p == c)) change pending,
)

acknowledge_lem :
    (link_id : Text) (changes : List Text) (state : State) (change other : Text)
    → is_pending change other (acknowledge link_id changes state).link_pending ≡ (
        is_pending change other state.link_pending
        && not (link_id == other && contains change changes))
unfolding acknowledge contains
acknowledge_lem link_id changes state change other =
    elim (Option-cases (lookup link_id state.link_pending)) [
      | inl missing ↦ ground (arith, missing, text_beq_iff link_id other)
      | inr (pending, listed) ↦ ground (
        arith,
        listed,
        lookup-insert link_id other (drop_changes changes pending) state.link_pending,
        drop_changes_lem changes change pending,
        text_beq_iff link_id other,
      )
    ]

module _ ⦃crates : Crates⦄ (env : Env) (gate : Gate) (s : Store) where
  -- An adaption takes away the changes that it names from the pending ones of its link, and none
  -- else, neither of that link nor of another.
  pub pending-commit_adapt :
      (node_key link_id : Text) (changes : List Text) (reason : Text) (stop no_reason : Bool)
      (p : Publication) (change other : Text)
      → commit_adapt env gate s node_key link_id changes reason stop no_reason ≡ ok p
      → is_pending change other p.new_state.link_pending ≡ (
          is_pending change other s.state.link_pending
          && not (link_id == other && contains change changes))
  unfolding commit_adapt acknowledge advance
  pending-commit_adapt node_key link_id changes reason stop no_reason p change other h =
      let pending : p.new_state.link_pending ≡ (acknowledge link_id changes s.state).link_pending =
        ground (arith, h) in
      rw pending (acknowledge_lem link_id changes s.state change other)

  -- A local link that is made starts and ends at a live range, audit or note, and has no pending
  -- changes where its id is new. It has the versions as they were given: each is a retained id on
  -- the chain of its end, or a prefix of one such id and of no other retained one.
  pub commit_link-anchored :
      (node_key source source_version target target_version reason : Text) (p : Publication)
      → commit_link env gate s node_key source source_version target target_version reason ≡ ok p
      → lookup p.answer s.state.link_pending ≡ none
      → (lookup p.answer p.new_state.links
          ≡ some (record {
            link_id = p.answer;
            source = source;
            target = target;
            source_version = source_version;
            target_version = target_version;
            created_by = p.commit_id;
          }))
        × (lookup p.answer p.new_state.link_pending ≡ some [])
        × (endpoint_ok source && endpoint_ok target ≡ true)
        × (contains_key source s.state.tips && contains_key target s.state.tips ≡ true)
        × ((id : Text) × Names s source source_version id)
        × ((id : Text) × Names s target target_version id)
  unfolding commit_link endpoint_version plan_link add_link advance
  commit_link-anchored node_key source source_version target target_version reason p h new =
      let made : Link = record {
        link_id = p.answer;
        source = source;
        target = target;
        source_version = source_version;
        target_version = target_version;
        created_by = p.commit_id;
      } in
      let links : p.new_state.links ≡ insert p.answer made s.state.links = ground (arith, h) in
      let pending : p.new_state.link_pending
          ≡ insert p.answer (unwrap_or (lookup p.answer s.state.link_pending) [])
              s.state.link_pending =
        ground (arith, h) in
      let self = (text_beq_iff p.answer p.answer).1 refl in
      (
        rw links (ground (arith, lookup-insert p.answer p.answer made s.state.links, self)),
        rw pending (
            ground (
              arith,
              lookup-insert p.answer p.answer (unwrap_or (lookup p.answer s.state.link_pending) [])
                  s.state.link_pending,
              self,
              new,
            )),
        ground (arith, h),
        ground (arith, h),
        elim (Result-cases (resolve_version_on_chain s source source_version)) [
          | inl (id, found) ↦ (id, resolve_version_on_chain-Names s source source_version id found)
          | inr (x, e) ↦ absurd (ground (arith, h, e))
        ],
        elim (Result-cases (resolve_version_on_chain s target target_version)) [
          | inl (id, found) ↦ (id, resolve_version_on_chain-Names s target target_version id found)
          | inr (x, e) ↦ absurd (ground (arith, h, e))
        ],
      )
