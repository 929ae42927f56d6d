-- ===== src/Records/Pipeline/Grows.antt =====
-- What the commands that write a record do to the chains of records.
use oh_my_document.Prelude.{
  ◌+◌, ◌%◌, u64_mod, Bool, false, not, ◌&&◌, List, [], ◌∷◌, ◌++◌, Text, text_eq, Option, some, ok,
  ◌⊎◌, inl, inr, ◌≡◌, ◌∙◌, arith, Option-cases, Bool-cases, Result-cases,
}
use oh_my_document.Prelude.Maps.{lookup, insert, contains_key}
use oh_my_document.Records.Crates.{Crates}
use oh_my_document.Records.Commit.{Commit, CommitKind, validate}
use oh_my_document.Records.Store.{State, Store}
use oh_my_document.Relations.Node.{is_file_key}
use oh_my_document.Records.Json.{Payload}
use oh_my_document.Records.Pipeline.Links.{
  ExternalLinkDirection, plan_xlink, commit_adapt, commit_link, acknowledge, add_link,
}
use oh_my_document.Records.Pipeline.Journal.{commit_journal, starts_journal}
use oh_my_document.Records.Pipeline.Marker.{
  commit_marker, marker_record, place_marker, marked, marker_effect, add_unclean, add_tag, add_rule,
}
use oh_my_document.Records.Pipeline.Lifecycle.{commit_lifecycle, move_location}
use oh_my_document.Records.Pipeline.{
  object_key, canonicalize_mount, is_import, Gate, structural, make_commit, tracked_file, Env,
  Publication, tip_of, advance, seal, commit_err, place_object, place_file, mount_range,
  published_node_key,
}

-- `key` names the chain: its tip becomes the new record, on top of the old tip, or as a root.
pub record Grows ⦃crates : Crates⦄ (s : Store) (p : Publication) (key : Text) : Type 0 where
  pub marker : p.new_state.publication ≡ (s.state.publication + 1) % u64_mod
  pub tips : p.new_state.tips ≡ insert key p.commit_id s.state.tips
  pub retained : p.new_state.retained ≡ s.state.retained ++ p.commit_id ∷ []
  pub chained : (p.record_.previous_id ≡ tip_of s.state key) ⊎ (p.record_.previous_id ≡ [])
  pub valid : (b : Bool) × (validate crates.is_rfc3339 crates.hex_decode p.record_ b ≡ ok tt)

-- A new object has no tip, and any other is published under the key that it has.
pub published_node_key-tip :
    (state : State) (locator commit_id : Text)
    → (tip_of state locator
        ≡ tip_of state
            (published_node_key locator (not (contains_key locator state.tips)) commit_id))
      ⊎ (tip_of state locator ≡ [])
unfolding published_node_key contains_key
published_node_key-tip state locator commit_id = elim (Option-cases (lookup locator state.tips)) [
  | inl new ↦ inr (ground (arith, new))
  | inr (tip, old) ↦ inl (ground (arith, old))
]

module _ ⦃crates : Crates⦄ (env : Env) (s : Store) where
  pub xlink-Grows :
      (node_key : Text) (direction : ExternalLinkDirection)
      (store_id peer_end peer_version local local_version link_id reason : Text) (p : Publication)
      → plan_xlink env s node_key direction store_id peer_end peer_version local local_version
          link_id reason
        ≡ ok p
      → Grows s p node_key
  unfolding plan_xlink advance add_link structural seal commit_err make_commit
  xlink-Grows node_key direction store_id peer_end peer_version local local_version link_id reason p
        h =
      record {
        marker = ground (arith, h);
        tips = ground (arith, h);
        retained = ground (arith, h);
        chained = inl (ground (arith, h));
        valid = (not (contains_key node_key s.state.tips), ground (arith, h));
      }

module _ ⦃crates : Crates⦄ (env : Env) (gate : Gate) (s : Store) where
  pub adapt-Grows :
      (node_key link_id : Text) (changes : List Text) (reason : Text) (stop no_reason : Bool)
      (p : Publication)
      → commit_adapt env gate s node_key link_id changes reason stop no_reason ≡ ok p
      → Grows s p node_key
  unfolding commit_adapt advance acknowledge structural seal commit_err make_commit
  adapt-Grows node_key link_id changes reason stop no_reason p h = record {
    marker = ground (arith, h);
    tips = ground (arith, h);
    retained = ground (arith, h);
    chained = inl (ground (arith, h));
    valid = (not (contains_key node_key s.state.tips), ground (arith, h));
  }

  pub link-Grows :
      (node_key source source_version target target_version reason : Text) (p : Publication)
      → commit_link env gate s node_key source source_version target target_version reason ≡ ok p
      → Grows s p node_key
  unfolding commit_link advance add_link structural seal commit_err make_commit
  link-Grows node_key source source_version target target_version reason p h = record {
    marker = ground (arith, h);
    tips = ground (arith, h);
    retained = ground (arith, h);
    chained = inl (ground (arith, h));
    valid = (not (contains_key node_key s.state.tips), ground (arith, h));
  }

  pub journal-Grows :
      (locator : Text) (kind : CommitKind) (payload : Payload) (p : Publication)
      → commit_journal env gate s locator kind payload ≡ ok p
      → Grows s p (published_node_key locator (not (contains_key locator s.state.tips)) p.commit_id)
  unfolding commit_journal advance structural seal commit_err make_commit
  journal-Grows locator kind payload p h = record {
    marker = ground (arith, h);
    tips = ground (arith, h);
    retained = ground (arith, h);
    chained = elim (published_node_key-tip s.state locator p.commit_id) [
      | inl same ↦ elim (Bool-cases (starts_journal kind)) [
        | inl root ↦ inr (ground (arith, h, root))
        | inr later ↦ inl (ground (arith, h, same, later))
      ]
      | inr new ↦ inr (ground (arith, h, new))
    ];
    valid = (not (contains_key locator s.state.tips), ground (arith, h));
  }

  pub lifecycle-Grows :
      (kind : CommitKind) (source_path : Text) (target_path : Option Text) (reason key : Text)
      (p : Publication)
      → tracked_file s source_path ≡ some key
      → commit_lifecycle env gate s kind source_path target_path reason ≡ ok p
      → Grows s p key
  unfolding commit_lifecycle advance structural seal commit_err make_commit move_location
  lifecycle-Grows kind source_path target_path reason key p e h = record {
    marker = ground (arith, h, e);
    tips = ground (arith, h, e);
    retained = ground (arith, h);
    chained = inl (ground (arith, h, e));
    valid = (false, ground (arith, h));
  }

  pub place-Advanced :
      (c : Commit) (file_first is_first statistics : Bool) (key : Text) (state placed : State)
      → place_object s c file_first is_first statistics key state ≡ ok placed
      → (placed.publication ≡ state.publication)
        × (placed.tips ≡ state.tips)
        × (placed.retained ≡ state.retained)
  unfolding place_object place_file mount_range
  place-Advanced c file_first is_first statistics key state placed h = ground (arith, h)

  effect-Advanced :
      (kind : CommitKind) (key commit_id : Text) (c : Commit) (state : State)
      → ((marker_effect kind key commit_id c state).publication ≡ state.publication)
        × ((marker_effect kind key commit_id c state).tips ≡ state.tips)
        × ((marker_effect kind key commit_id c state).retained ≡ state.retained)
  unfolding marker_effect add_unclean add_tag add_rule
  effect-Advanced kind key commit_id c state = ground arith

  marker_record-sealed :
      (node_key : Text) (kind : CommitKind) (payload : Payload) (c : Commit) (commit_id : Text)
      → marker_record env gate s node_key kind payload ≡ ok (c, commit_id)
      → (c.previous_id ≡ tip_of s.state node_key)
        × (validate crates.is_rfc3339 crates.hex_decode c (not (contains_key node_key s.state.tips))
            ≡ ok tt)
  unfolding marker_record structural seal commit_err make_commit
  marker_record-sealed node_key kind payload c commit_id h = ground (arith, h)

  module _ (locator : Text) (kind : CommitKind) (payload : Payload) where
    abbrev node_key : Text
    node_key = object_key s locator

    -- What a marker that is written is made of.
    pub marker_parts :
        (p : Publication)
        → commit_marker env gate s locator kind payload ≡ ok p
        → (c : Commit) × (commit_id : Text) × (placed : State) × (marker_record env gate s node_key
              kind
              (canonicalize_mount s payload)
            ≡ ok (c, commit_id))
          × (place_marker env s node_key kind c commit_id ≡ ok placed)
          × (p
              ≡ marked env
                  (published_node_key node_key (not (contains_key node_key s.state.tips)) commit_id)
                  kind
                  c
                  commit_id
                  placed)
    unfolding commit_marker
    marker_parts p h =
        elim (Result-cases
          (marker_record env gate s node_key kind (canonicalize_mount s payload))) [
            | inr (x, made) ↦ absurd (ground (arith, h, made))
            | inl ((c, commit_id), made) ↦
                elim (Result-cases (place_marker env s node_key kind c commit_id)) [
                  | inr (x, at) ↦ absurd (ground (arith, h, made, at))
                  | inl (placed, at) ↦ (c, commit_id, placed, made, at, ground (arith, h, made, at))
                ]
          ]

    pub marker-Grows :
        (p : Publication)
        → commit_marker env gate s locator kind payload ≡ ok p
        → Grows s p
            (published_node_key node_key (not (contains_key node_key s.state.tips)) p.commit_id)
    unfolding marked place_marker advance
    marker-Grows p h =
        let (c, commit_id, placed, made, at, e) = marker_parts p h in
        let is_first = not (contains_key node_key s.state.tips) in
        let key = published_node_key node_key is_first commit_id in
        let same =
          place-Advanced c (is_first && is_file_key node_key) is_first (is_import kind) key
            (advance key commit_id s.state) placed at in
        let kept = effect-Advanced kind key commit_id c placed in
        let (previous, valid) =
          marker_record-sealed node_key kind (canonicalize_mount s payload) c commit_id made in
        rw e (record {
          marker = kept.0 ∙ same.0;
          tips = kept.1 ∙ same.1;
          retained = kept.2 ∙ same.2;
          chained = elim (published_node_key-tip s.state node_key commit_id) [
            | inl same ↦ inl (previous ∙ same)
            | inr new ↦ inr (previous ∙ new)
          ];
          valid = (is_first, valid);
        })
