-- ===== src/Records/Pipeline/Log.antt =====
-- The store as a log: the chains of its records, and the commands that write one.
pub mod History
use oh_my_document.Prelude.{
  Bool, true, false, List, [], ◌∷◌, Text, text_eq, text_beq_iff, Option, none, some, ok, is_empty,
  if◌then◌else◌, ◌==◌, unwrap_or, Bool-cases, Option-cases, inl, inr, ◌≡◌, ◌≢◌, ◌∙◌, sym, ap, arith,
}
use oh_my_document.Prelude.Maps.{Map, lookup, insert, lookup-insert}
use oh_my_document.Records.Crates.{Crates}
use oh_my_document.Records.Json.{Payload}
use oh_my_document.Records.Commit.{Commit, CommitKind, validate}
use oh_my_document.Records.Store.{Store, read_commit}
use oh_my_document.Sources.Reference.{SourceDescriptor}
use oh_my_document.Records.Session.{Session}
use oh_my_document.Records.Session.Evidence.{Expected}
use oh_my_document.Records.Pipeline.{Env, Gate, Publication, tip_of, tracked_file}
use oh_my_document.Records.Pipeline.Marker.{commit_marker}
use oh_my_document.Records.Pipeline.Lifecycle.{commit_lifecycle}
use oh_my_document.Records.Pipeline.Links.{
  ExternalLinkDirection, commit_link, plan_xlink, commit_adapt,
}
use oh_my_document.Records.Pipeline.Journal.{commit_journal}
use oh_my_document.Records.Pipeline.Source.{Observation, Reader, commit_source}
use oh_my_document.Records.Pipeline.Grows.{
  Grows, marker-Grows, lifecycle-Grows, link-Grows, xlink-Grows, adapt-Grows, journal-Grows,
}
use oh_my_document.Records.Pipeline.Sourced.{source-Grows}

-- The store after `publish`: the record is among those that are read, and the state is the new one.
unfoldable pub published : Store → Publication → Store
published s p = record { state = p.new_state; commits = insert p.commit_id p.record_ s.commits }

module _ ⦃crates : Crates⦄ where
  -- The records from an id down to the root, each of them readable.
  pub data Chain (s : Store) : Text → List Text → Type 0 where
    start : Chain s [] []
    more :
        (id : Text) (c : Commit) (ids : List Text)
        → id ≢ []
        → read_commit s id ≡ ok c
        → Chain s c.previous_id ids
        → Chain s id (id ∷ ids)

  -- A command that writes a record, and what it hands to `publish`.
  pub data Writes (env : Env) (reader : Reader) (s : Store) : Publication → Type 0 where
    marker :
        (gate : Gate) (locator : Text) (kind : CommitKind) (payload : Payload) (p : Publication)
        → commit_marker env gate s locator kind payload ≡ ok p
        → Writes env reader s p
    lifecycle :
        (gate : Gate) (kind : CommitKind) (source_path : Text) (target_path : Option Text)
        (reason : Text) (p : Publication)
        → commit_lifecycle env gate s kind source_path target_path reason ≡ ok p
        → Writes env reader s p
    link :
        (gate : Gate) (node_key source source_version target target_version reason : Text)
        (p : Publication)
        → commit_link env gate s node_key source source_version target target_version reason ≡ ok p
        → Writes env reader s p
    external :
        (node_key : Text) (direction : ExternalLinkDirection)
        (store_id peer_end peer_version local local_version link_id reason : Text) (p : Publication)
        → plan_xlink env s node_key direction store_id peer_end peer_version local local_version
            link_id reason
          ≡ ok p
        → Writes env reader s p
    adapt :
        (gate : Gate) (node_key link_id : Text) (changes : List Text) (reason : Text)
        (stop no_reason : Bool) (p : Publication)
        → commit_adapt env gate s node_key link_id changes reason stop no_reason ≡ ok p
        → Writes env reader s p
    journal :
        (gate : Gate) (locator : Text) (kind : CommitKind) (payload : Payload) (p : Publication)
        → commit_journal env gate s locator kind payload ≡ ok p
        → Writes env reader s p
    source :
        (gate : Gate) (session : Session) (expected : Expected) (locator : Text)
        (acquisition recovery : SourceDescriptor) (initial : Option Observation)
        (override_ : Option Text) (kind : CommitKind) (payload : Payload) (p : Publication)
        → session.stored ≡ s
        → commit_source env reader gate session expected locator acquisition recovery initial
            override_ kind payload
          ≡ ok p
        → Writes env reader s p

  lifecycle-tracked :
      (env : Env) (gate : Gate) (s : Store) (kind : CommitKind) (source_path : Text)
      (target_path : Option Text) (reason : Text) (p : Publication)
      → commit_lifecycle env gate s kind source_path target_path reason ≡ ok p
      → (key : Text) × (tracked_file s source_path ≡ some key)
  unfolding commit_lifecycle
  lifecycle-tracked env gate s kind source_path target_path reason p h =
      elim (Option-cases (tracked_file s source_path)) [
        | inl e ↦ absurd (ground (arith, h, e))
        | inr (key, e) ↦ (key, e)
      ]

  pub Writes-Grows :
      (env : Env) (reader : Reader) (s : Store) (p : Publication)
      → Writes env reader s p
      → (key : Text) × Grows s p key
  Writes-Grows env reader s p (marker gate locator kind payload _ h) =
      (_, marker-Grows env gate s locator kind payload p h)
  Writes-Grows env reader s p (lifecycle gate kind source_path target_path reason _ h) =
      let (key, e) = lifecycle-tracked env gate s kind source_path target_path reason p h in
      (key, lifecycle-Grows env gate s kind source_path target_path reason key p e h)
  Writes-Grows env reader s p (link gate node_key a b c d reason _ h) =
      (node_key, link-Grows env gate s node_key a b c d reason p h)
  Writes-Grows env reader s p (external node_key direction a b c d e f reason _ h) =
      (node_key, xlink-Grows env s node_key direction a b c d e f reason p h)
  Writes-Grows env reader s p (adapt gate node_key link_id changes reason stop no_reason _ h) =
      (node_key, adapt-Grows env gate s node_key link_id changes reason stop no_reason p h)
  Writes-Grows env reader s p (journal gate locator kind payload _ h) =
      (_, journal-Grows env gate s locator kind payload p h)
  Writes-Grows env reader s p
        (source gate session expected locator a b initial override_ kind payload _ same h) =
      let g =
        source-Grows env reader gate session expected locator a b initial override_ kind payload p
          h in
      (_, rw same at g)
