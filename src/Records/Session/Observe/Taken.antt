-- ===== src/Records/Session/Observe/Taken.antt =====
-- The maps of evidence, as the loop over the nodes fills them.

use oh_my_document.Prelude.{
  ℕ, List, [], ◌∷◌, All, Text, text_eq, text_beq_iff, Option, none, some, ok, ◌==◌, ◌≡◌, ap, subst,
  refl, arith, Result-cases, Bool-cases, inl, inr,
}
use oh_my_document.Prelude.Maps.{
  All-insert, All-map, keys-insert, lookup, insert, keys, lookup-insert,
}
use oh_my_document.Records.Crates.{Crates}
use oh_my_document.Records.Session.{Session, World}
use oh_my_document.Records.Session.Evidence.Current.{IsCurrent}
use oh_my_document.Records.Session.Evidence.{Expected, live_mapping_revision}
use oh_my_document.Records.Session.Observe.{
  observe_node, note_observed, observe_nodes, observe, bare,
}

module _ ⦃crates : Crates⦄ (world : World) (s : Session) where
  -- An observed version is in all four maps, as it was observed.
  abbrev pub Taken : Expected → Text × Text → Type 0
  Taken exp (node, id) =
      (hash : Text) × (observe_node world s node ≡ ok (some (id, some hash)))
      × (lookup node exp.basis_versions ≡ some id)
      × (lookup node exp.acquisition_versions ≡ some id)
      × (lookup node exp.source_hashes ≡ some hash)

  pub record IsTaken (exp : Expected) : Type 0 where
    pub current : IsCurrent world s exp
    pub entries : All (Taken exp) exp.source_versions
    pub acquisition_keys : keys exp.acquisition_versions ≡ keys exp.source_versions
    pub hash_keys : keys exp.acquisition_versions ≡ keys exp.source_hashes

  Taken-basis :
      (exp : Expected) (node id : Text) (entry : Text × Text)
      → observe_node world s node ≡ ok (some (id, none))
      → Taken exp entry
      → Taken (record exp { basis_versions = insert node id exp.basis_versions }) entry
  Taken-basis exp node id (n, i) seen (hash, was, basis, acquisition, hashed) = (
    hash,
    was,
    elim (Bool-cases (node == n)) [
      | inl same ↦
          let at : node ≡ n = (text_beq_iff node n).0 same in
          absurd (ground (arith, seen, ap (λ (m : Text). observe_node world s m) at, was))
      | inr differ ↦ ground (arith, lookup-insert node n id exp.basis_versions, differ, basis)
    ],
    acquisition,
    hashed,
  )

  Taken-noted :
      (exp : Expected) (node id hash : Text) (entry : Text × Text)
      → observe_node world s node ≡ ok (some (id, some hash))
      → Taken exp entry
      → Taken (note_observed node (id, some hash) exp) entry
  unfolding note_observed
  Taken-noted exp node id hash (n, i) seen (h, was, basis, acquisition, hashed) =
      elim (Bool-cases (node == n)) [
        | inl same ↦
            let at : node ≡ n = (text_beq_iff node n).0 same in
            let again : observe_node world s n ≡ ok (some (id, some hash)) = rw at at seen in
            let id_is : id ≡ i = ground (arith, again, was) in
            let hash_is : hash ≡ h = ground (arith, again, was) in
            (
              h,
              was,
              ground (arith, lookup-insert node n id exp.basis_versions, same, id_is),
              ground (arith, lookup-insert node n id exp.acquisition_versions, same, id_is),
              ground (arith, lookup-insert node n hash exp.source_hashes, same, hash_is),
            )
        | inr differ ↦ (
          h,
          was,
          ground (arith, lookup-insert node n id exp.basis_versions, differ, basis),
          ground (arith, lookup-insert node n id exp.acquisition_versions, differ, acquisition),
          ground (arith, lookup-insert node n hash exp.source_hashes, differ, hashed),
        )
      ]

  note_observed-IsCurrent :
      (exp : Expected) (node : Text) (found : Text × Option Text)
      → IsCurrent world s exp
      → IsCurrent world s (note_observed node found exp)
  unfolding note_observed
  note_observed-IsCurrent exp node (id, none) c = record {
    format = c.format;
    context = c.context;
    revision = c.revision;
    project = c.project;
    store_ = c.store_;
    publication = c.publication;
    tips = c.tips;
    registrations = c.registrations;
    peers = c.peers;
  }
  note_observed-IsCurrent exp node (id, some hash) c = record {
    format = c.format;
    context = c.context;
    revision = c.revision;
    project = c.project;
    store_ = c.store_;
    publication = c.publication;
    tips = c.tips;
    registrations = c.registrations;
    peers = c.peers;
  }

  note_observed-IsTaken :
      (exp : Expected) (node : Text) (found : Text × Option Text)
      → observe_node world s node ≡ ok (some found)
      → IsTaken exp
      → IsTaken (note_observed node found exp)
  unfolding note_observed
  note_observed-IsTaken exp node (id, none) seen t = record {
    current = note_observed-IsCurrent exp node (id, none) t.current;
    entries =
        All-map (Taken exp) (Taken (note_observed node (id, none) exp)) exp.source_versions
          (λ entry old. Taken-basis exp node id entry seen old) t.entries;
    acquisition_keys = t.acquisition_keys;
    hash_keys = t.hash_keys;
  }
  note_observed-IsTaken exp node (id, some hash) seen t = record {
    current = note_observed-IsCurrent exp node (id, some hash) t.current;
    entries =
        All-insert (Taken (note_observed node (id, some hash) exp)) node id exp.source_versions
          (
            hash,
            seen,
            ground (
              arith,
              lookup-insert node node id exp.basis_versions,
              (text_beq_iff node node).1 refl,
            ),
            ground (
              arith,
              lookup-insert node node id exp.acquisition_versions,
              (text_beq_iff node node).1 refl,
            ),
            ground (
              arith,
              lookup-insert node node hash exp.source_hashes,
              (text_beq_iff node node).1 refl,
            ),
          )
          (All-map (Taken exp) (Taken (note_observed node (id, some hash) exp)) exp.source_versions
            (λ entry old. Taken-noted exp node id hash entry seen old) t.entries);
    acquisition_keys =
        keys-insert node id id exp.acquisition_versions exp.source_versions t.acquisition_keys;
    hash_keys = keys-insert node id hash exp.acquisition_versions exp.source_hashes t.hash_keys;
  }

  observe_nodes-IsTaken :
      (nodes : List Text) (exp out : Expected)
      → observe_nodes world s nodes exp ≡ ok out
      → IsTaken exp
      → IsTaken out
  unfolding observe_nodes
  observe_nodes-IsTaken [] exp out h t =
      let same : exp ≡ out = ground (arith, h) in subst IsTaken same t
  observe_nodes-IsTaken (node ∷ nodes) exp out h t =
      elim (Result-cases (observe_node world s node)) [
        | inr (e, bad) ↦ absurd (ground (arith, h, bad))
        | inl (none, seen) ↦ observe_nodes-IsTaken nodes exp out (ground (arith, h, seen)) t
        | inl (some found, seen) ↦
            observe_nodes-IsTaken nodes (note_observed node found exp) out (ground (arith, h, seen))
              (note_observed-IsTaken exp node found seen t)
      ]

  pub observe-IsTaken :
      (revision : Option ℕ) (exp : Expected)
      → live_mapping_revision world s ≡ ok revision
      → observe world s s.context_instance revision ≡ ok exp
      → IsTaken exp
  unfolding observe bare
  observe-IsTaken revision exp live h =
      observe_nodes-IsTaken (keys s.stored.state.tips) (bare world s s.context_instance revision)
        exp h
        (record {
          current = record {
            format = refl;
            context = refl;
            revision = live;
            project = refl;
            store_ = refl;
            publication = refl;
            tips = refl;
            registrations = refl;
            peers = refl;
          };
          entries = tt;
          acquisition_keys = refl;
          hash_keys = refl;
        })
