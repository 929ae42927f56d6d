-- ===== src/Records/Pipeline/Owed.antt =====
-- src/records/pipeline.rs, `commit_source`: which obligations a record of a source adds and takes
-- away.
use oh_my_document.Prelude.{
  Bool, true, false, not, ◌&&◌, ◌||◌, List, [], ◌∷◌, ◌++◌, Text, text_eq, text_beq_iff, Option,
  none, some, ok, any, retain, ◌==◌, unwrap_or, codes, Option-cases, Bool-cases, inl, inr, ◌≡◌, ◌∙◌,
  ap, refl, arith,
}
use oh_my_document.Prelude.Maps.{Map, lookup, lookup-insert, contains_key}
use oh_my_document.Records.Crates.{Crates}
use oh_my_document.Records.Json.{Payload}
use oh_my_document.Records.Commit.{Commit, CommitKind, clean, unclean}
use oh_my_document.Records.Store.{State, Store}
use oh_my_document.Relations.Dirty.{DirtyState, Obligation, push_unclean, top_of}
use oh_my_document.Relations.Node.{is_file_key}
use oh_my_document.Sources.Reference.{SourceDescriptor}
use oh_my_document.Records.Session.{Session}
use oh_my_document.Records.Session.Evidence.{Expected}
use oh_my_document.Records.Pipeline.{
  Env, Gate, Publication, advance, published_node_key, object_key, place_object, place_file,
  mount_range,
}
use oh_my_document.Records.Pipeline.Marker.{add_unclean, no_dirt}
use oh_my_document.Relations.Identity.Ancestry.{payload_text}
use oh_my_document.Records.Pipeline.Source.{
  Observation, Reader, source_effect, oblige, drop_obligation, place_source, sourced, commit_source,
}
use oh_my_document.Records.Pipeline.Sourced.{source_parts}

-- The object has an obligation for the commit.
abbrev obligations_of : Option DirtyState → List Obligation
obligations_of none = []
obligations_of (some d) = d.obligations

abbrev names_change : Text → List Obligation → Bool
names_change change obligations = any (λ o. o.commit_id == change) obligations

abbrev pub is_owed : Text → Text → Map DirtyState → Bool
is_owed change node dirty = names_change change (obligations_of (lookup node dirty))

abbrev pub adds_obligation : CommitKind → Bool
adds_obligation unclean = true
adds_obligation _ = false

abbrev pub drops_obligation : CommitKind → Bool
drops_obligation clean = true
drops_obligation _ = false

names_change-append :
    (change : Text) (obligations : List Obligation) (o : Obligation)
    → names_change change (obligations ++ o ∷ [])
      ≡ (names_change change obligations || o.commit_id == change)
unfolding any
names_change-append change [] o = ground arith
names_change-append change (x ∷ obligations) o =
    ground (arith, names_change-append change obligations o)

names_change-retain :
    (change commit_id : Text) (obligations : List Obligation)
    → names_change change (retain (λ o. not (o.commit_id == commit_id)) obligations)
      ≡ (names_change change obligations && not (change == commit_id))
unfolding any retain
names_change-retain change commit_id [] = refl
names_change-retain change commit_id (o ∷ obligations) = ground (
  arith,
  names_change-retain change commit_id obligations,
  text_beq_iff o.commit_id change,
  text_beq_iff o.commit_id commit_id,
  text_beq_iff change commit_id,
)

add_unclean_lem :
    (key commit_id : Text) (c : Commit) (state : State) (change node : Text)
    → is_owed change node (add_unclean key commit_id c state).dirty
      ≡ (is_owed change node state.dirty || (key == node && change == commit_id))
unfolding add_unclean push_unclean any
add_unclean_lem key commit_id c state change node =
    let old = unwrap_or (lookup key state.dirty) no_dirt in
    let reason = unwrap_or (payload_text (codes "reason") c) [] in
    let moved = lookup-insert key node (push_unclean commit_id reason old) state.dirty in
    let o : Obligation = record {
      commit_id = commit_id;
      reason = reason;
      atop = top_of old.obligations;
    } in
    elim (Bool-cases (key == node)) [
      | inr other ↦ ground (arith, moved, other)
      | inl same ↦
          let at : key ≡ node = (text_beq_iff key node).0 same in
          elim (Option-cases (lookup key state.dirty)) [
            | inl missing ↦ ground (
              arith,
              moved,
              same,
              missing,
              rw at at missing,
              text_beq_iff commit_id change,
              text_beq_iff change commit_id,
            )
            | inr (d, found) ↦ ground (
              arith,
              moved,
              same,
              found,
              rw at at found,
              names_change-append change d.obligations o,
              text_beq_iff commit_id change,
              text_beq_iff change commit_id,
            )
          ]
    ]

drop_obligation_lem :
    (key commit_id : Text) (state : State) (change node : Text)
    → is_owed change node (drop_obligation key commit_id state).dirty
      ≡ (is_owed change node state.dirty && not (key == node && change == commit_id))
unfolding drop_obligation any
drop_obligation_lem key commit_id state change node = elim (Option-cases (lookup key state.dirty)) [
  | inl missing ↦ elim (Bool-cases (key == node)) [
    | inr other ↦ ground (arith, missing, other)
    | inl same ↦
        let at : key ≡ node = (text_beq_iff key node).0 same in
        ground (arith, missing, same, rw at at missing)
  ]
  | inr (d, found) ↦
      let left : DirtyState = record d {
        obligations = retain (λ o. not (o.commit_id == commit_id)) d.obligations;
      } in
      let moved = lookup-insert key node left state.dirty in
      elim (Bool-cases (key == node)) [
        | inr other ↦ ground (arith, found, moved, other)
        | inl same ↦
            let at : key ≡ node = (text_beq_iff key node).0 same in
            ground (
              arith,
              found,
              moved,
              same,
              rw at at found,
              names_change-retain change commit_id d.obligations,
            )
      ]
]

source_effect_lem :
    (kind : CommitKind) (key commit_id : Text) (c : Commit) (state : State) (change node : Text)
    → is_owed change node (source_effect kind key commit_id c state).dirty ≡ (
        (is_owed change node state.dirty
          && not (drops_obligation kind && key == node && change == commit_id))
        || (adds_obligation kind && key == node && change == commit_id))
unfolding source_effect
source_effect_lem kind key commit_id c state change node = ground (
  arith,
  add_unclean_lem key commit_id c state change node,
  drop_obligation_lem key commit_id state change node,
)

module _ ⦃crates : Crates⦄ (env : Env) (reader : Reader) where
  placed-dirty :
      (s : Store) (c : Commit) (file_first is_first statistics : Bool) (key : Text)
      (state placed : State)
      → place_object s c file_first is_first statistics key state ≡ ok placed
      → placed.dirty ≡ state.dirty
  unfolding place_object place_file mount_range
  placed-dirty s c file_first is_first statistics key state placed h = ground (arith, h)

  -- A record of a source adds an obligation just where it is an `unclean` one: for its own id, to
  -- its object. A `clean` one takes away those for its own id from its object. Every other
  -- obligation of any object stays.
  pub obligations-commit_source :
      (gate : Gate) (s : Session) (expected : Expected) (locator : Text)
      (acquisition recovery : SourceDescriptor) (initial : Option Observation)
      (override_ : Option Text) (kind : CommitKind) (payload : Payload) (p : Publication)
      (change node : Text)
      → commit_source env reader gate s expected locator acquisition recovery initial override_ kind
          payload
        ≡ ok p
      → let node_key = object_key s.stored locator in
        let key =
          published_node_key node_key
            (not (contains_key node_key s.stored.state.tips))
            p.commit_id in
        is_owed change node p.new_state.dirty ≡ (
          (is_owed change node s.stored.state.dirty
            && not (drops_obligation kind && key == node && change == p.commit_id))
          || (adds_obligation kind && key == node && change == p.commit_id))
  unfolding sourced place_source advance oblige
  obligations-commit_source gate s expected locator acquisition recovery initial override_ kind
        payload p change node h =
      let (acquired, recovered, observed, made, placed, _, _, put, e) =
        source_parts env reader gate s expected locator acquisition recovery initial override_ kind
          payload p h in
      let node_key = object_key s.stored locator in
      let is_first = not (contains_key node_key s.stored.state.tips) in
      let key = published_node_key node_key is_first made.commit_id in
      let kept =
        placed-dirty s.stored made.record_ (is_first && is_file_key node_key) is_first false key
          (advance key made.commit_id s.stored.state) placed put in
      rw e (
        source_effect_lem kind key made.commit_id made.record_ (oblige key made.commit_id placed)
          change node
        ∙ ap
            (λ (dirty : Map DirtyState).
              (is_owed change node dirty
                && not (drops_obligation kind && key == node && change == made.commit_id))
              || (adds_obligation kind && key == node && change == made.commit_id))
            kept)
