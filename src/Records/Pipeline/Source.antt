-- ===== src/Records/Pipeline/Source.antt =====
-- src/records/pipeline.rs, `commit_source`: records of an observed source.
mod Observe
mod Effects
mod Tests
use oh_my_document.Prelude.{
  ℕ, Bool, true, false, not, ◌&&◌, List, [], ◌∷◌, ◌++◌, length, contains, Text, text_eq, Option,
  none, some, is_some, codes, Result, ok, err, ◌>>=◌, ◌>>◌, map_err, ok_or, refuse_if,
  if◌then◌else◌, ◌==◌, unwrap_or, retain,
}
use mathlib.Core.Option
use oh_my_document.Prelude.Equality.{option_beq}
use oh_my_document.Prelude.Maps.{Map, TextSet, lookup, insert, insert_key, contains_key}
use oh_my_document.Records.Id.{Bytes}
use oh_my_document.Records.Json
use oh_my_document.Records.Json.{string, Payload}
use oh_my_document.Records.Crates.{Crates}
use oh_my_document.Records.Commit.{Commit, CommitKind, unclean, clean, atomic_begin, atomic_end}
use oh_my_document.Records.Version.{SourceVersion}
use oh_my_document.Records.Store.{State, Store, Link, conflict}
use oh_my_document.Sources.{SourceError}
use oh_my_document.Sources.Reference.{SourceDescriptor}
use oh_my_document.Relations.Identity.Ancestry.{payload_text}
use oh_my_document.Relations.Node.{is_file_key, is_range_key, parent_of}
use oh_my_document.Relations.Node.Position.{position_from_value}
use oh_my_document.Relations.Range
use oh_my_document.Relations.Range.{Range, Mode, text, byte, text_len}
use oh_my_document.Records.Session.{Session, is_git}
use oh_my_document.Records.Session.Evidence.{Expected, descriptor_beq, require_source_expected}
use oh_my_document.Records.Pipeline.{
  Env, Gate, Publication, PipelineError, source, store, input, writable, is_init, tip_of, push_to,
  published_node_key, advance, range_tips_of, object_key, canonicalize_mount, place_object,
  make_version, make_commit, seal,
}
use oh_my_document.Records.Pipeline.Marker.{pop_block, add_unclean}
pub use oh_my_document.Records.Pipeline.Source.Observe.{Observation, Reader}
unfoldable pub use oh_my_document.Records.Pipeline.Source.Observe.{
  payload_range, is_byte_mode, source_len, validate_range_payload, evidence_node, first_observation,
  view_changed, later_observation,
}
unfoldable pub use oh_my_document.Records.Pipeline.Source.Effects.{
  add_pending, links_from, targets_from, oblige, drop_obligation, source_effect, last_of,
  mark_block, with_content,
}

-- What a record of a source is made from.
pub record Draft : Type 0 where
  pub record_ : Commit
  pub commit_id : Text
  pub version : SourceVersion
  pub content : Option Bytes

module _ ⦃crates : Crates⦄ (env : Env) (reader : Reader) where
  -- A version that was not observed is drawn, before the salt is: the version, and the next draw.
  unfoldable pub source_version :
      Observation
      → Option SourceVersion
      → (acquisition recovery : SourceDescriptor) → SourceVersion × ℕ
  source_version o (some version) acquisition recovery = (version, 0)
  source_version o none acquisition recovery =
      let drawn = make_version env 0 o.bytes o.encoding acquisition recovery in
      (if is_git recovery then drawn else with_content drawn, 1)

  -- The observation, once the evidence is checked where the record is not the first.
  unfoldable pub observe_source :
      Gate
      → Session
      → Expected
      → (node_key : Text) → SourceDescriptor
      → Option Observation
      → (override_ : Option Text) → CommitKind
      → Payload
      → Result PipelineError (Observation × Option SourceVersion)
  observe_source gate s expected node_key acquisition initial override_ kind payload =
      let unobserved_init = is_init kind && not (contains_key node_key s.stored.state.tips) in
      let node = evidence_node expected payload node_key in
      if unobserved_init
      then (first_observation (is_byte_mode payload) initial >>= λ o. ok (o, none))
      else (map_err store gate.expected >>= λ _.
          map_err store (require_source_expected s expected node) >>= λ _.
          later_observation reader s node acquisition (is_byte_mode payload) override_)

  unfoldable pub source_record :
      Store
      → (node_key : Text) → Observation × Option SourceVersion
      → (acquisition recovery : SourceDescriptor) → CommitKind
      → Payload
      → Result PipelineError Draft
  source_record s node_key (o, observed) acquisition recovery kind payload = do
    let is_first = not (contains_key node_key s.state.tips)
    validate_range_payload reader payload o.bytes o.encoding
    let version = (source_version o observed acquisition recovery).0
    let draw = (source_version o observed acquisition recovery).1
    let made = make_commit env draw kind (tip_of s.state node_key) version payload
    let c : Commit = record (mark_block s.state node_key made) {
      range_tips = range_tips_of s.state node_key is_first;
    }
    commit_id ← seal env c is_first o.bytes
    ok (record {
      record_ = c;
      commit_id = commit_id;
      version = version;
      content = if is_some version.content_file then some o.bytes else none;
    })

  unfoldable pub place_source : Store → (node_key : Text) → Draft → Result PipelineError State
  place_source s node_key d =
      let is_first = not (contains_key node_key s.state.tips) in
      let key = published_node_key node_key is_first d.commit_id in
      place_object s d.record_ (is_first && is_file_key node_key) is_first false key
        (advance key d.commit_id s.state)

  unfoldable pub sourced : (key : Text) → CommitKind → Draft → State → Publication
  sourced key kind d placed = record {
    record_ = d.record_;
    commit_id = d.commit_id;
    version = some d.version;
    content = d.content;
    new_state = source_effect kind key d.commit_id d.record_ (oblige key d.commit_id placed);
    answer = d.commit_id;
  }

  -- The session is the one that `lock` and `check_expected` leave.
  unfoldable pub commit_source :
      Gate
      → Session
      → Expected
      → (locator : Text) → (acquisition recovery : SourceDescriptor) → Option Observation
      → (override_ : Option Text) → CommitKind
      → Payload
      → Result PipelineError Publication
  commit_source gate s expected locator acquisition recovery initial override_ kind payload =
      let node_key = object_key s.stored locator in
      let mounted = canonicalize_mount s.stored payload in
      map_err source (reader.normalized acquisition) >>= λ acquired.
      map_err source (reader.normalized recovery) >>= λ recovered. writable gate >>= λ _.
      observe_source gate s expected node_key acquired initial override_ kind mounted
      >>= λ observed.
          source_record s.stored node_key observed acquired recovered kind mounted >>= λ d.
          place_source s.stored node_key d >>= λ placed. ok (
            sourced
              (published_node_key node_key (not (contains_key node_key s.stored.state.tips))
                d.commit_id)
              kind d placed)
