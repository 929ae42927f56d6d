-- ===== src/Records/Session/Observe/Accepted.antt =====
-- Evidence that was just taken, and the checks of evidence.
use mathlib.Core.Option
use oh_my_document.Prelude.{
  ℕ, true, [], ◌∷◌, All, Text, text_eq, text_beq_iff, Option, none, some, Result, ok, ◌==◌, ◌≡◌,
  ◌∙◌, sym, ap, refl, arith, Result-cases, Bool-cases, Option-cases, inl, inr,
}
use oh_my_document.Prelude.Equality.{list_beq_iff, option_beq, option_beq_iff}
use oh_my_document.Prelude.Maps.{Map, insert, keys}
use oh_my_document.Records.Id.{Bytes}
use oh_my_document.Records.Crates.{Crates}
use oh_my_document.Records.Version.{SourceVersion, content_sha256}
use oh_my_document.Records.Store.{StoreError}
use oh_my_document.Records.Session.Identity.{require_identity}
use oh_my_document.Records.Session.{
  Session, World, recover_version_bytes, source_version_id, read_version, current_acquisition,
}
use oh_my_document.Records.Session.Evidence.Current.{validate_metadata_expected_iff}
use oh_my_document.Records.Session.Evidence.{
  Expected, observed_content, check_source, check_sources, check_shape, check_expected,
  live_mapping_revision,
}
use oh_my_document.Records.Session.Observe.{observe_node, observe, unchanged_hash, file_bytes}
use oh_my_document.Sources.Reference.{SourceDescriptor, file, command, git}
use oh_my_document.Records.Session.Evidence.Fresh.{check_sources-ok, check_expected-ok, stamp-ok}
use oh_my_document.Records.Session.Evidence.Observed.{descriptor_beq_iff}
use oh_my_document.Records.Session.Observe.Taken.{Taken, IsTaken, observe-IsTaken}

module _ ⦃crates : Crates⦄ (world : World) (s : Session) where
  -- What was observed of a node.
  Taken-parts :
      (node id hash : Text)
      → observe_node world s node ≡ ok (some (id, some hash))
      → (version : SourceVersion) × (project path : Text) × (bytes : Bytes) × (source_version_id
            s.stored node
          ≡ ok (some id))
        × (read_version s id ≡ ok version)
        × (current_acquisition s.stored.state node version ≡ some version.acquisition)
        × (version.acquisition ≡ file project path)
        × (world.read_file version.acquisition ≡ ok bytes)
        × (content_sha256 bytes ≡ hash)
        × (version.sha256 ≡ hash)
  unfolding observe_node unchanged_hash file_bytes Option.bind
  Taken-parts node id hash h = elim (Result-cases (require_identity world s)) [
    | inr (e, e1) ↦ absurd (ground (arith, h, e1))
    | inl (_, e1) ↦ elim (Result-cases (source_version_id s.stored node)) [
      | inr (e, e2) ↦ absurd (ground (arith, h, e1, e2))
      | inl (none, e2) ↦ absurd (ground (arith, h, e1, e2))
      | inl (some i, e2) ↦ elim (Result-cases (read_version s i)) [
        | inr (e, e3) ↦ absurd (ground (arith, h, e1, e2, e3))
        | inl (version, e3) ↦
            elim (Option-cases (current_acquisition s.stored.state node version)) [
              | inl e4 ↦ absurd (ground (arith, h, e1, e2, e3, e4))
              | inr (command executable args, e4) ↦ absurd (ground (arith, h, e1, e2, e3, e4))
              | inr (git project commit path, e4) ↦ absurd (ground (arith, h, e1, e2, e3, e4))
              | inr (file project path, e4) ↦
                  elim (Result-cases (world.read_file (file project path))) [
                    | inr (e, e5) ↦ absurd (ground (arith, h, e1, e2, e3, e4, e5))
                    | inl (bytes, e5) ↦
                        let id_is : i ≡ id = ground (arith, h, e1, e2, e3, e4, e5) in
                        let source_is : file project path ≡ version.acquisition = ground (
                          arith,
                          h,
                          e1,
                          e2,
                          e3,
                          e4,
                          e5,
                          descriptor_beq_iff (file project path) version.acquisition,
                        ) in
                        let hash_is : content_sha256 bytes ≡ hash =
                          ground (arith, h, e1, e2, e3, e4, e5) in
                        let stored_is : content_sha256 bytes ≡ version.sha256 = ground (
                          arith,
                          h,
                          e1,
                          e2,
                          e3,
                          e4,
                          e5,
                          text_beq_iff (content_sha256 bytes) version.sha256,
                        ) in
                        (
                          version,
                          project,
                          path,
                          bytes,
                          e2 ∙ ap (λ (n : Text). ok (some n)) id_is,
                          ap (λ (n : Text). read_version s n) (sym id_is) ∙ e3,
                          e4 ∙ ap (λ (d : SourceDescriptor). some d) source_is,
                          sym source_is,
                          ap (λ (d : SourceDescriptor). world.read_file d) (sym source_is) ∙ e5,
                          hash_is,
                          sym stored_is ∙ hash_is,
                        )
                  ]
            ]
      ]
    ]
  ]

  read_version-id :
      (id : Text) (version : SourceVersion)
      → read_version s id ≡ ok version
      → (crates.hex_encode version.id == id) ≡ true
  unfolding read_version
  read_version-id id version h = ground (arith, h)

  check_source-Taken :
      (exp : Expected) (node id : Text) (old : Bytes)
      → Taken world s exp (node, id)
      → recover_version_bytes world s id ≡ ok old
      → (found : SourceVersion × Bytes) × (check_source world exp s node id ≡ ok found)
  unfolding check_source observed_content
  check_source-Taken exp node id old (hash, seen, basis, acquisition, hashed) recovered =
      let (version, project, path, bytes, selected, read, current, source, content, same, stored) =
        Taken-parts node id hash seen in
      (
        (version, bytes),
        ground (
          arith,
          basis,
          acquisition,
          hashed,
          recovered,
          selected,
          read,
          current,
          content,
          source,
          read_version-id id version read,
          option_beq_iff (some id) (some id),
          text_beq_iff id id,
          text_beq_iff version.sha256 hash,
          text_beq_iff (content_sha256 bytes) hash,
          same,
          stored,
          descriptor_beq_iff version.acquisition version.acquisition,
        ),
      )

  -- The content of the version of an entry can be recovered.
  abbrev pub IsRecoverable : Text × Text → Type 0
  IsRecoverable entry = (old : Bytes) × (recover_version_bytes world s entry.1 ≡ ok old)

  check_sources-Taken :
      (exp : Expected) (sources : Map Text) (seen : Session)
      → All (Taken world s exp) sources
      → All IsRecoverable sources
      → (check_sources world exp s sources seen).1 ≡ ok tt
  unfolding check_sources
  check_sources-Taken exp [] seen taken recoverable = refl
  check_sources-Taken exp ((node, id) ∷ sources) seen (taken, later) ((old, recovered), rest) =
      let ((version, bytes), good) = check_source-Taken exp node id old taken recovered in
      let next : Session = record seen {
        observed_versions = insert node version seen.observed_versions;
        observed_bytes = insert node bytes seen.observed_bytes;
      } in
      ap (λ (outcome : Session × Result StoreError (Unit {0})). outcome.1)
        (check_sources-ok world exp s node id sources seen version bytes good)
      ∙ check_sources-Taken exp sources next later rest

  check_shape-Taken : (exp : Expected) → IsTaken world s exp → check_shape world exp s ≡ ok tt
  unfolding check_shape
  check_shape-Taken exp t = ground (
    arith,
    (validate_metadata_expected_iff world s exp).1 t.current,
    list_beq_iff (keys exp.acquisition_versions) (keys exp.source_versions),
    list_beq_iff (keys exp.acquisition_versions) (keys exp.source_hashes),
    t.acquisition_keys,
    t.hash_keys,
  )

  -- Evidence that is taken from a session, whose project is in its place and whose identity is
  -- known, is accepted there, where the content of each version that it lists can be recovered.
  pub observe-check_expected :
      (revision : Option ℕ) (exp : Expected) (fingerprint : Text)
      → require_identity world s ≡ ok tt
      → live_mapping_revision world s ≡ ok revision
      → observe world s s.context_instance revision ≡ ok exp
      → All IsRecoverable exp.source_versions
      → (check_expected world exp fingerprint s).1 ≡ ok tt
  observe-check_expected revision exp fingerprint known live h recoverable =
      let t = observe-IsTaken world s revision exp live h in
      elim (Bool-cases (option_beq s.validated_expected (some fingerprint))) [
        | inl before ↦ unfold check_expected in ground (arith, known, before)
        | inr unknown ↦
            let fresh : Session = record s { observed_versions = []; observed_bytes = [] } in
            let passed = check_sources-Taken exp exp.source_versions fresh t.entries recoverable in
            ap (λ (outcome : Session × Result StoreError (Unit {0})). outcome.1)
              (check_expected-ok world exp fingerprint s known unknown (check_shape-Taken exp t))
            ∙ stamp-ok world exp fingerprint (check_sources world exp s exp.source_versions fresh)
                passed
      ]
