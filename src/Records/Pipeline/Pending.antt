-- ===== src/Records/Pipeline/Pending.antt =====
-- Which links a record of a source puts under an obligation.
use oh_my_document.Prelude.{
  Bool, false, not, ◌&&◌, ◌||◌, [], ◌∷◌, List, Text, text_eq, text_beq_iff, Option, any, contains,
  ok, ◌==◌, ◌≡◌, ◌∙◌, ap, ap₂, refl, arith,
}
use oh_my_document.Prelude.Maps.{Map, TextSet, contains_key}
use oh_my_document.Records.Crates.{Crates}
use oh_my_document.Records.Json.{Payload}
use oh_my_document.Records.Commit.{Commit, CommitKind}
use oh_my_document.Records.Store.{State, Store, Link}
use oh_my_document.Relations.Node.{is_file_key}
use oh_my_document.Sources.Reference.{SourceDescriptor}
use oh_my_document.Records.Session.{Session}
use oh_my_document.Records.Session.Evidence.{Expected}
use oh_my_document.Records.Pipeline.{
  Env, Gate, Publication, advance, published_node_key, object_key, place_object, place_file,
  mount_range,
}
use oh_my_document.Records.Pipeline.Marker.{add_unclean}
use oh_my_document.Records.Pipeline.Source.{
  Observation, Reader, add_pending, links_from, targets_from, oblige, drop_obligation,
  source_effect, place_source, sourced, commit_source,
}
use oh_my_document.Records.Pipeline.Sourced.{source_parts}
use oh_my_document.Records.Pipeline.Effects.{is_pending, add_pending_lem}

-- The link starts at the object, or where a link ends that starts at the object.
abbrev pub is_downstream : Text → Text → Map Link → Bool
is_downstream key link_id links =
    any
      (λ (e : Text × Link).
        e.0 == link_id
        && (e.1.source == key
            || any (λ (f : Text × Link). f.1.source == key && f.1.target == e.1.source) links))
      links

links_from_lem :
    (sources : List Text) (link_id : Text) (links : Map Link)
    → contains link_id (links_from sources links)
      ≡ any (λ (e : Text × Link). e.0 == link_id && contains e.1.source sources) links
unfolding contains links_from any
links_from_lem sources link_id [] = refl
links_from_lem sources link_id ((id, l) ∷ links) =
    ground (
      arith,
      links_from_lem sources link_id links,
      text_beq_iff id link_id,
      text_beq_iff link_id id,
    )

targets_from_lem :
    (key target : Text) (links : Map Link)
    → contains target (targets_from key links)
      ≡ any (λ (f : Text × Link). f.1.source == key && f.1.target == target) links
unfolding contains targets_from any
targets_from_lem key target [] = refl
targets_from_lem key target ((id, l) ∷ links) = ground (
  arith,
  targets_from_lem key target links,
  text_beq_iff l.target target,
  text_beq_iff target l.target,
)

-- Two tests on the same list are one.
any-or :
    (key link_id : Text) (all links : Map Link)
    → (any (λ (e : Text × Link). e.0 == link_id && contains e.1.source (key ∷ [])) links
        || any
            (λ (e : Text × Link). e.0 == link_id && contains e.1.source (targets_from key all))
            links)
      ≡ any
          (λ (e : Text × Link).
            e.0 == link_id
            && (e.1.source == key
                || any (λ (f : Text × Link). f.1.source == key && f.1.target == e.1.source) all))
          links
unfolding any contains
any-or key link_id all [] = refl
any-or key link_id all ((id, l) ∷ links) =
    ground (arith, any-or key link_id all links, targets_from_lem key l.source all)

downstream_lem :
    (key link_id : Text) (links : Map Link)
    → (contains link_id (links_from (key ∷ []) links)
        || contains link_id (links_from (targets_from key links) links))
      ≡ is_downstream key link_id links
downstream_lem key link_id links =
    rw
      (
        links_from_lem (key ∷ []) link_id links,
        links_from_lem (targets_from key links) link_id links,
      )
      (any-or key link_id links links)

oblige_lem :
    (key commit_id : Text) (state : State) (change link_id : Text)
    → is_pending change link_id (oblige key commit_id state).link_pending ≡ (
        is_pending change link_id state.link_pending
        || (change == commit_id && is_downstream key link_id state.links))
unfolding oblige
oblige_lem key commit_id state change link_id =
    let direct = contains link_id (links_from (key ∷ []) state.links) in
    let further = contains link_id (links_from (targets_from key state.links) state.links) in
    let both : (direct || further) ≡ is_downstream key link_id state.links =
      downstream_lem key link_id state.links in
    let first =
      add_pending_lem (links_from (key ∷ []) state.links) commit_id change link_id
        state.link_pending in
    let second =
      add_pending_lem (links_from (targets_from key state.links) state.links) commit_id change
        link_id (add_pending (links_from (key ∷ []) state.links) commit_id state.link_pending) in
    second ∙ ground (arith, first, both)

effect-links :
    (kind : CommitKind) (key commit_id : Text) (c : Commit) (state : State)
    → (source_effect kind key commit_id c state).link_pending ≡ state.link_pending
unfolding source_effect add_unclean drop_obligation
effect-links kind key commit_id c state = ground arith

module _ ⦃crates : Crates⦄ (env : Env) (reader : Reader) where
  placed-links :
      (s : Store) (c : Commit) (file_first is_first statistics : Bool) (key : Text)
      (state placed : State)
      → place_object s c file_first is_first statistics key state ≡ ok placed
      → (placed.link_pending ≡ state.link_pending) × (placed.links ≡ state.links)
  unfolding place_object place_file mount_range
  placed-links s c file_first is_first statistics key state placed h = ground (arith, h)

  -- A record of a source makes its commit pending for just the links that start at its object, and
  -- for those that start where one of these ends. What was pending stays.
  pub pending-commit_source :
      (gate : Gate) (s : Session) (expected : Expected) (locator : Text)
      (acquisition recovery : SourceDescriptor) (initial : Option Observation)
      (override_ : Option Text) (kind : CommitKind) (payload : Payload) (p : Publication)
      (change link_id : Text)
      → commit_source env reader gate s expected locator acquisition recovery initial override_ kind
          payload
        ≡ ok p
      → let node_key = object_key s.stored locator in
        let key =
          published_node_key node_key
            (not (contains_key node_key s.stored.state.tips))
            p.commit_id in
        is_pending change link_id p.new_state.link_pending ≡ (
          is_pending change link_id s.stored.state.link_pending
          || (change == p.commit_id && is_downstream key link_id s.stored.state.links))
  unfolding sourced place_source advance oblige
  pending-commit_source gate s expected locator acquisition recovery initial override_ kind payload
        p change link_id h =
      let (acquired, recovered, observed, d, placed, _, _, at, e) =
        source_parts env reader gate s expected locator acquisition recovery initial override_ kind
          payload p h in
      let node_key = object_key s.stored locator in
      let is_first = not (contains_key node_key s.stored.state.tips) in
      let key = published_node_key node_key is_first d.commit_id in
      let (pending, links) =
        placed-links s.stored d.record_ (is_first && is_file_key node_key) is_first false key
          (advance key d.commit_id s.stored.state) placed at in
      rw e (
        ap (λ (m : Map TextSet). is_pending change link_id m)
          (effect-links kind key d.commit_id d.record_ (oblige key d.commit_id placed))
        ∙ (oblige_lem key d.commit_id placed change link_id
            ∙ ap₂
                (λ (m : Map TextSet) (l : Map Link).
                  is_pending change link_id m
                  || (change == d.commit_id && is_downstream key link_id l))
                pending links))
