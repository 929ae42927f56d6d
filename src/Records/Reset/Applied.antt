-- ===== src/Records/Reset/Applied.antt =====
-- What a reset leaves in the state: tips, links and pending obligations.
use oh_my_document.Prelude.{
  ℕ, zero, suc, ◌≤◌, Bool, true, false, not, List, [], ◌∷◌, Text, text_eq, text_beq_iff, Option,
  none, some, is_empty, is_empty_iff, if◌then◌else◌, ◌==◌, contains, contains-retain, retain,
  unwrap_or, is_nodup, Bool-cases, Option-cases, inl, inr, ap, sym, ◌∙◌, ◌≡◌, ◌≢◌, refl, arith,
  length,
}
use oh_my_document.Prelude.Maps.{
  Map, TextSet, lookup, contains_key, keys, lookup-insert, lookup-remove,
}
use oh_my_document.Records.Commit.{CommitKind}
use oh_my_document.Records.Store.{State, Link}
use oh_my_document.Records.Reset.{
  removed_from, retain_entries, map_values, withdraw, apply_reset_to_state, walk_turns,
}

-- The commits that a reset of the node removes.
abbrev pub removed :
    State → (node_key actual : Text) → (Text → Option (CommitKind × Text)) → List Text
removed state node_key actual read =
    removed_from read walk_turns actual (unwrap_or (lookup node_key state.tips) [])

-- A reset moves the tip of its node, away for an empty landing, and no other tip.
pub lookup-apply_reset_to_state :
    (state : State) (node_key actual other : Text) (read : Text → Option (CommitKind × Text))
    → lookup other (apply_reset_to_state state node_key actual read).tips ≡ (
        if node_key == other
        then (if is_empty actual then none else some actual)
        else lookup other state.tips)
unfolding apply_reset_to_state withdraw
lookup-apply_reset_to_state state node_key actual other read =
    ground (
      arith,
      lookup-insert node_key other actual state.tips,
      lookup-remove node_key other state.tips,
    )

module _ {ℓ} {V : Type ℓ} where
  lookup-absent : (k : Text) (m : Map V) → contains k (keys m) ≡ false → lookup k m ≡ none
  unfolding lookup contains keys
  lookup-absent k [] h = refl
  lookup-absent k ((j, v) ∷ m) h =
      ground (arith, text_beq_iff j k, text_beq_iff k j, lookup-absent k m)

  lookup-retain_entries :
      (p : Text → V → Bool) (k : Text) (m : Map V)
      → is_nodup (keys m) ≡ true
      → lookup k (retain_entries p m)
        ≡ elim (lookup k m) [ none ↦ none | some v ↦ if p k v then some v else none ]
  unfolding lookup retain_entries is_nodup keys
  lookup-retain_entries p k [] h = refl
  lookup-retain_entries p k ((j, v) ∷ m) h =
      let rest : lookup k (retain_entries p m)
          ≡ elim (lookup k m) [ none ↦ none | some w ↦ if p k w then some w else none ] =
        lookup-retain_entries p k m (ground (arith, h)) in
      elim (Bool-cases (j == k)) [
        | inl here ↦
            let at : j ≡ k = (text_beq_iff j k).0 here in
            let fresh : contains j (keys m) ≡ false = ground (arith, h) in
            let gone : lookup k m ≡ none = lookup-absent k m (rw at at fresh) in
            elim (Bool-cases (p j v)) [
              | inl keep ↦
                  rw (lookup, retain_entries, keep, here, ap (λ i. p i v) (sym at) ∙ keep) refl
              | inr leave ↦
                  rw (retain_entries, leave, here, ap (λ i. p i v) (sym at) ∙ leave, rest, gone)
                    refl
            ]
        | inr there ↦ elim (Bool-cases (p j v)) [
          | inl keep ↦ rw (keep, there) rest
          | inr leave ↦ rw (leave, there) rest
        ]
      ]

  lookup-retain_keys :
      (q : Text → Bool) (k : Text) (m : Map V)
      → lookup k (retain_entries (λ j _. q j) m) ≡ (if q k then lookup k m else none)
  unfolding lookup retain_entries
  lookup-retain_keys q k [] = ground arith
  lookup-retain_keys q k ((j, v) ∷ m) =
      ground (arith, text_beq_iff j k, λ (h : j ≡ k). ap q h, lookup-retain_keys q k m)

  lookup-map_values :
      (f : V → V) (k : Text) (m : Map V)
      → lookup k (map_values f m) ≡ elim (lookup k m) [ none ↦ none | some v ↦ some (f v) ]
  unfolding lookup map_values
  lookup-map_values f k [] = refl
  lookup-map_values f k ((j, v) ∷ m) = ground (arith, lookup-map_values f k m)

-- The walk from an id down to the landing, or to the root where the landing is not met.
pub data Down (read : Text → Option (CommitKind × Text)) (actual : Text)
    : Text → List Text → Type 0 where
  landed : Down read actual actual []
  ended : Down read actual [] []
  unread :
      (cur : Text) → cur ≢ [] → cur ≢ actual → read cur ≡ none → Down read actual cur (cur ∷ [])
  down :
      (cur previous : Text) (kind : CommitKind) (ids : List Text)
      → cur ≢ []
      → cur ≢ actual
      → read cur ≡ some (kind, previous)
      → Down read actual previous ids
      → Down read actual cur (cur ∷ ids)

removed_from-nil :
    (read : Text → Option (CommitKind × Text)) (turns : ℕ) (actual : Text)
    → removed_from read turns actual [] ≡ []
unfolding removed_from
removed_from-nil read zero actual = refl
removed_from-nil read (suc turns) actual = refl

removed_from_self :
    (read : Text → Option (CommitKind × Text)) (turns : ℕ) (actual : Text)
    → removed_from read turns actual actual ≡ []
unfolding removed_from
removed_from_self read zero actual = refl
removed_from_self read (suc turns) actual = ground (arith, text_beq_iff actual actual)

removed_from-Down :
    (read : Text → Option (CommitKind × Text)) (actual : Text) (turns : ℕ) {cur : Text}
    {ids : List Text}
    → Down read actual cur ids
    → length ids ≤ turns
    → removed_from read turns actual cur ≡ ids
unfolding removed_from
removed_from-Down read actual turns landed h = removed_from_self read turns actual
removed_from-Down read actual turns ended h = removed_from-nil read turns actual
removed_from-Down read actual zero (unread cur n o r) h = absurd (omega arith)
removed_from-Down read actual (suc turns) (unread cur n o r) h =
    let started : is_empty cur ≡ false = ground (arith, is_empty_iff cur) in
    let short : (cur == actual) ≡ false = ground (arith, text_beq_iff cur actual) in
    rw (started, short, r) (ap (◌∷◌ cur) (removed_from-nil read turns actual))
removed_from-Down read actual zero (down cur previous kind ids n o r d) h = absurd (omega arith)
removed_from-Down read actual (suc turns) (down cur previous kind ids n o r d) h =
    let started : is_empty cur ≡ false = ground (arith, is_empty_iff cur) in
    let short : (cur == actual) ≡ false = ground (arith, text_beq_iff cur actual) in
    rw (started, short, r) (ap (◌∷◌ cur) (removed_from-Down read actual turns d (omega arith)))

links_after :
    (state : State) (node_key actual : Text) (read : Text → Option (CommitKind × Text))
    → (apply_reset_to_state state node_key actual read).links
      ≡ retain_entries
          (λ id link. not (contains link.created_by (removed state node_key actual read)))
          state.links
unfolding apply_reset_to_state withdraw
links_after state node_key actual read = refl

pending_after :
    (state : State) (node_key actual : Text) (read : Text → Option (CommitKind × Text))
    → (apply_reset_to_state state node_key actual read).link_pending
      ≡ map_values (retain (λ c. not (contains c (removed state node_key actual read)))) (
          retain_entries
            (λ id _. contains_key id (apply_reset_to_state state node_key actual read).links)
            state.link_pending)
unfolding apply_reset_to_state withdraw
pending_after state node_key actual read = refl

-- A link of the state is withdrawn by a reset just when its creating commit is one of those on
-- the walk from the node's old tip down to the landing; where the landing is not met, down to
-- the root of the old chain, so with the commits that the landing's own chain shares with it.
-- The entries of the link map have different ids, and the walk has at most 100000 commits.
pub links-apply_reset_to_state :
    (state : State) (node_key actual link_id : Text) (link : Link)
    (read : Text → Option (CommitKind × Text)) (ids : List Text)
    → is_nodup (keys state.links) ≡ true
    → lookup link_id state.links ≡ some link
    → Down read actual (unwrap_or (lookup node_key state.tips) []) ids
    → length ids ≤ walk_turns
    → lookup link_id (apply_reset_to_state state node_key actual read).links
      ≡ (if contains link.created_by ids then none else some link)
links-apply_reset_to_state state node_key actual link_id link read ids once found d short =
    let walked : removed state node_key actual read ≡ ids =
      removed_from-Down read actual walk_turns d short in
    ap (lookup link_id) (links_after state node_key actual read)
    ∙ lookup-retain_entries
        (λ id link. not (contains link.created_by (removed state node_key actual read))) link_id
        state.links once
    ∙ rw (found, walked) (ground arith)

-- After a reset a link with pending obligations is a link of the state, and none of its pending
-- commits is among the removed.
pub link_pending-apply_reset_to_state :
    (state : State) (node_key actual link_id : Text) (read : Text → Option (CommitKind × Text))
    (pending : TextSet)
    → lookup link_id (apply_reset_to_state state node_key actual read).link_pending ≡ some pending
    → (contains_key link_id (apply_reset_to_state state node_key actual read).links ≡ true)
      × ((c : Text)
          → contains c pending ≡ true
          → contains c (removed state node_key actual read) ≡ false)
link_pending-apply_reset_to_state state node_key actual link_id read pending h =
    let after : State = apply_reset_to_state state node_key actual read in
    let gone : Text → Bool = λ c. contains c (removed state node_key actual read) in
    let told : lookup link_id after.link_pending
        ≡ elim (if contains_key link_id after.links
            then lookup link_id state.link_pending
            else none) [ none ↦ none | some cs ↦ some (retain (λ c. not (gone c)) cs) ] =
      ap (lookup link_id) (pending_after state node_key actual read)
      ∙ lookup-map_values (retain (λ c. not (gone c))) link_id _
      ∙ ap
          (λ (o : Option TextSet). elim o [
            | none ↦ none
            | some cs ↦ some (retain (λ c. not (gone c)) cs)
          ])
          (lookup-retain_keys (λ id. contains_key id after.links) link_id state.link_pending) in
    elim (Bool-cases (contains_key link_id after.links)) [
      | inr missing ↦ absurd (ground (arith, sym h ∙ told, missing))
      | inl there ↦ elim (Option-cases (lookup link_id state.link_pending)) [
        | inl free ↦ absurd (ground (arith, sym h ∙ told, there, free))
        | inr (cs, owed) ↦
            let same : pending ≡ retain (λ c. not (gone c)) cs =
              ground (arith, sym h ∙ told, there, owed) in
            (there, λ c m. ground (arith, contains-retain (λ c. not (gone c)) c cs, rw same at m))
      ]
    ]
