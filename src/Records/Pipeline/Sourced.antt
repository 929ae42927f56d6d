-- ===== src/Records/Pipeline/Sourced.antt =====
-- Records of sources: what they are made of, and the chain that they are added to.
use oh_my_document.Prelude.{
  false, not, ◌&&◌, Text, Option, ok, Result-cases, inl, inr, ◌≡◌, ◌∙◌, arith,
}
use oh_my_document.Prelude.Maps.{contains_key}
use oh_my_document.Records.Crates.{Crates}
use oh_my_document.Records.Json.{Payload}
use oh_my_document.Records.Commit.{Commit, CommitKind, validate}
use oh_my_document.Records.Version.{SourceVersion}
use oh_my_document.Records.Store.{State, Store}
use oh_my_document.Relations.Node.{is_file_key}
use oh_my_document.Sources.Reference.{SourceDescriptor}
use oh_my_document.Records.Session.{Session}
use oh_my_document.Records.Session.Evidence.{Expected}
use oh_my_document.Records.Pipeline.{
  Env, Gate, Publication, tip_of, advance, published_node_key, object_key, canonicalize_mount,
  make_commit, seal, commit_err,
}
use oh_my_document.Records.Pipeline.Marker.{add_unclean}
use oh_my_document.Records.Pipeline.Grows.{Grows, place-Advanced, published_node_key-tip}
use oh_my_document.Records.Pipeline.Source.{
  Observation, Reader, Draft, source_effect, oblige, drop_obligation, mark_block, observe_source,
  source_record, place_source, sourced, commit_source,
}

effect-Advanced :
    (kind : CommitKind) (key commit_id : Text) (c : Commit) (state : State)
    → ((source_effect kind key commit_id c state).publication ≡ state.publication)
      × ((source_effect kind key commit_id c state).tips ≡ state.tips)
      × ((source_effect kind key commit_id c state).retained ≡ state.retained)
unfolding source_effect add_unclean drop_obligation
effect-Advanced kind key commit_id c state = ground arith

module _ ⦃crates : Crates⦄ (env : Env) (reader : Reader) where
  source_record-sealed :
      (s : Store) (node_key : Text) (observed : Observation × Option SourceVersion)
      (acquisition recovery : SourceDescriptor) (kind : CommitKind) (payload : Payload) (d : Draft)
      → source_record env reader s node_key observed acquisition recovery kind payload ≡ ok d
      → (d.record_.previous_id ≡ tip_of s.state node_key)
        × (validate crates.is_rfc3339 crates.hex_decode d.record_
              (not (contains_key node_key s.state.tips))
            ≡ ok tt)
  unfolding source_record mark_block seal commit_err make_commit
  source_record-sealed s node_key observed acquisition recovery kind payload d h = ground (arith, h)

  module _ (gate : Gate) (s : Session) (expected : Expected) (locator : Text)
      (acquisition recovery : SourceDescriptor) (initial : Option Observation)
      (override_ : Option Text) (kind : CommitKind) (payload : Payload) where
    abbrev node_key : Text
    node_key = object_key s.stored locator

    abbrev mounted : Payload
    mounted = canonicalize_mount s.stored payload

    -- What a record of a source that is written is made of.
    pub source_parts :
        (p : Publication)
        → commit_source env reader gate s expected locator acquisition recovery initial override_
            kind payload
          ≡ ok p
        → (acquired recovered : SourceDescriptor) × (observed : Observation × Option SourceVersion)
          × (d : Draft) × (placed : State) × (observe_source env reader gate s expected node_key
                acquired initial override_ kind mounted
              ≡ ok observed)
          × (source_record env reader s.stored node_key observed acquired recovered kind mounted
              ≡ ok d)
          × (place_source env reader s.stored node_key d ≡ ok placed)
          × (p
              ≡ sourced env reader
                  (published_node_key node_key
                    (not (contains_key node_key s.stored.state.tips))
                    d.commit_id)
                  kind
                  d
                  placed)
    unfolding commit_source
    source_parts p h = elim (Result-cases (reader.normalized acquisition)) [
      | inr (x, e1) ↦ absurd (ground (arith, h, e1))
      | inl (acquired, e1) ↦ elim (Result-cases (reader.normalized recovery)) [
        | inr (x, e2) ↦ absurd (ground (arith, h, e1, e2))
        | inl (recovered, e2) ↦
            elim (Result-cases (
              observe_source env reader gate s expected node_key acquired initial override_ kind
                mounted)) [
                  | inr (x, e3) ↦ absurd (ground (arith, h, e1, e2, e3))
                  | inl (observed, e3) ↦
                      elim (Result-cases (
                        source_record env reader s.stored node_key observed acquired recovered kind
                          mounted)) [
                            | inr (x, e4) ↦ absurd (ground (arith, h, e1, e2, e3, e4))
                            | inl (d, e4) ↦
                                elim (Result-cases (place_source env reader s.stored node_key d)) [
                                  | inr (x, e5) ↦ absurd (ground (arith, h, e1, e2, e3, e4, e5))
                                  | inl (placed, e5) ↦ (
                                    acquired,
                                    recovered,
                                    observed,
                                    d,
                                    placed,
                                    e3,
                                    e4,
                                    e5,
                                    ground (arith, h, e1, e2, e3, e4, e5),
                                  )
                                ]
                          ]
                ]
      ]
    ]

    pub source-Grows :
        (p : Publication)
        → commit_source env reader gate s expected locator acquisition recovery initial override_
            kind payload
          ≡ ok p
        → Grows s.stored p (
            published_node_key node_key
              (not (contains_key node_key s.stored.state.tips))
              p.commit_id)
    unfolding sourced place_source advance oblige
    source-Grows p h =
        let (acquired, recovered, observed, d, placed, _, made, at, e) = source_parts p h in
        let is_first = not (contains_key node_key s.stored.state.tips) in
        let key = published_node_key node_key is_first d.commit_id in
        let same =
          place-Advanced env gate s.stored d.record_ (is_first && is_file_key node_key) is_first
            false key (advance key d.commit_id s.stored.state) placed at in
        let kept = effect-Advanced kind key d.commit_id d.record_ (oblige key d.commit_id placed) in
        let (previous, valid) =
          source_record-sealed s.stored node_key observed acquired recovered kind mounted d made in
        rw e (record {
          marker = kept.0 ∙ same.0;
          tips = kept.1 ∙ same.1;
          retained = kept.2 ∙ same.2;
          chained = elim (published_node_key-tip s.stored.state node_key d.commit_id) [
            | inl same ↦ inl (previous ∙ same)
            | inr new ↦ inr (previous ∙ new)
          ];
          valid = (is_first, valid);
        })
