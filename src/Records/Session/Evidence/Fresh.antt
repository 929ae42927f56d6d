-- ===== src/Records/Session/Evidence/Fresh.antt =====
-- What the observations are that accepted evidence leaves in the session.
use oh_my_document.Prelude.{
  true, false, [], ◌∷◌, Text, text_eq, text_beq_iff, some, Result, ok, err, ◌==◌, Result-cases,
  Bool-cases, inl, inr, ◌⊎◌, ◌≡◌, ◌∙◌, sym, ap, subst, refl, arith,
}
use oh_my_document.Prelude.Equality.{option_beq}
use oh_my_document.Prelude.Maps.{Map, lookup, insert, lookup-insert, contains_key}
use oh_my_document.Records.Id.{Bytes}
use oh_my_document.Records.Crates.{Crates}
use oh_my_document.Records.Version.{SourceVersion}
use oh_my_document.Records.Store.{StoreError}
use oh_my_document.Records.Session.Identity.{require_identity}
use oh_my_document.Records.Session.{Session, World}
use oh_my_document.Records.Session.Evidence.{
  Expected, validate_metadata_expected, check_source, check_sources, check_shape, check_expected,
  stamp,
}
use oh_my_document.Records.Session.Evidence.Observed.{IsFresh, check_source-IsFresh}

module _ ⦃crates : Crates⦄ (world : World) (exp : Expected) where
  -- The session holds a fresh observation of the node.
  abbrev pub Sees : Session → Session → Text → Type 0
  Sees s seen node =
      (version : SourceVersion) × (bytes : Bytes) × (lookup node seen.observed_versions
        ≡ some version)
      × (lookup node seen.observed_bytes ≡ some bytes)
      × IsFresh world exp s node version bytes

  observe_other :
      (s seen : Session) (node other : Text) (version : SourceVersion) (bytes : Bytes)
      → (other == node) ≡ false
      → Sees s seen node
      → Sees s
          (record seen {
            observed_versions = insert other version seen.observed_versions;
            observed_bytes = insert other bytes seen.observed_bytes;
          })
          node
  observe_other s seen node other version bytes differ (v, b, at, of, fresh) = (
    v,
    b,
    ground (arith, lookup-insert other node version seen.observed_versions, differ, at),
    ground (arith, lookup-insert other node bytes seen.observed_bytes, differ, of),
    fresh,
  )

  pub check_sources-ok :
      (s : Session) (other id : Text) (sources : Map Text) (seen : Session)
      (version : SourceVersion) (bytes : Bytes)
      → check_source world exp s other id ≡ ok (version, bytes)
      → check_sources world exp s ((other, id) ∷ sources) seen
        ≡ check_sources world exp s sources (record seen {
          observed_versions = insert other version seen.observed_versions;
          observed_bytes = insert other bytes seen.observed_bytes;
        })
  unfolding check_sources
  check_sources-ok s other id sources seen version bytes good = ground (arith, good)

  -- Evidence that was not accepted before is accepted only where its metadata is current.
  pub check_expected-metadata :
      (fingerprint : Text) (s : Session)
      → option_beq s.validated_expected (some fingerprint) ≡ false
      → (check_expected world exp fingerprint s).1 ≡ ok tt
      → validate_metadata_expected world s exp ≡ ok tt
  unfolding check_expected check_shape
  check_expected-metadata fingerprint s unknown h =
      elim (Result-cases (validate_metadata_expected world s exp)) [
        | inl (tt, current) ↦ current
        | inr (e, bad) ↦ absurd (ground (arith, h, unknown, bad))
      ]

  pub check_expected-ok :
      (fingerprint : Text) (s : Session)
      → require_identity world s ≡ ok tt
      → option_beq s.validated_expected (some fingerprint) ≡ false
      → check_shape world exp s ≡ ok tt
      → check_expected world exp fingerprint s
        ≡ stamp world exp fingerprint (
            check_sources world exp s exp.source_versions
              (record s { observed_versions = []; observed_bytes = [] }))
  unfolding check_expected
  check_expected-ok fingerprint s known unknown shaped = ground (arith, known, unknown, shaped)

  check_sources-Sees :
      (s : Session) (sources : Map Text) (seen : Session) (node : Text)
      → Sees s seen node ⊎ (contains_key node sources ≡ true)
      → (check_sources world exp s sources seen).1 ≡ ok tt
      → Sees s (check_sources world exp s sources seen).0 node
  unfolding check_sources contains_key lookup
  check_sources-Sees s [] seen node (inl sees) h = sees
  check_sources-Sees s [] seen node (inr listed) h = absurd (ground (arith, listed))
  check_sources-Sees s ((other, id) ∷ sources) seen node todo h =
      elim (Result-cases (check_source world exp s other id)) [
        | inr (e, bad) ↦ absurd (ground (arith, h, bad))
        | inl ((version, bytes), good) ↦
            let next : Session = record seen {
              observed_versions = insert other version seen.observed_versions;
              observed_bytes = insert other bytes seen.observed_bytes;
            } in
            let rest : (check_sources world exp s sources next).1 ≡ ok tt =
              ground (arith, h, good) in
            let left : Sees s next node ⊎ (contains_key node sources ≡ true) =
              elim (Bool-cases (other == node)) [
                | inl same ↦ inl (
                  version,
                  bytes,
                  ground (arith, lookup-insert other node version seen.observed_versions, same),
                  ground (arith, lookup-insert other node bytes seen.observed_bytes, same),
                  check_source-IsFresh world exp s node id version bytes
                      (rw (← (text_beq_iff other node).0 same) good),
                )
                | inr differ ↦ elim todo [
                  | inl sees ↦ inl (observe_other s seen node other version bytes differ sees)
                  | inr listed ↦ inr (ground (arith, listed, differ))
                ]
              ] in
            subst (λ outcome. Sees s outcome.0 node)
              (sym (check_sources-ok s other id sources seen version bytes good))
              (check_sources-Sees s sources next node left rest)
      ]

  pub stamp-ok :
      (fingerprint : Text) (outcome : Session × Result StoreError (Unit {0}))
      → outcome.1 ≡ ok tt
      → (stamp world exp fingerprint outcome).1 ≡ ok tt
  unfolding stamp
  stamp-ok fingerprint (seen, ok tt) h = refl
  stamp-ok fingerprint (seen, err e) h = absurd (ground (arith, h))

  stamp-Sees :
      (fingerprint : Text) (s : Session) (node : Text)
      (outcome : Session × Result StoreError (Unit {0}))
      → (stamp world exp fingerprint outcome).1 ≡ ok tt
      → (outcome.1 ≡ ok tt → Sees s outcome.0 node)
      → Sees s (stamp world exp fingerprint outcome).0 node
  unfolding stamp
  stamp-Sees fingerprint s node (seen, ok tt) h sees = sees refl
  stamp-Sees fingerprint s node (seen, err e) h sees = absurd (ground (arith, h))

  -- Evidence that was not accepted before and is accepted now leaves in the session, for each node
  -- that it lists a source version of, an observation that `IsFresh`: the version that it lists as
  -- acquired, and its bytes.
  pub check_expected-IsFresh :
      (fingerprint : Text) (s : Session) (node : Text)
      → option_beq s.validated_expected (some fingerprint) ≡ false
      → (check_expected world exp fingerprint s).1 ≡ ok tt
      → contains_key node exp.source_versions ≡ true
      → Sees s (check_expected world exp fingerprint s).0 node
  unfolding check_expected
  check_expected-IsFresh fingerprint s node unknown h listed =
      elim (Result-cases (require_identity world s)) [
        | inr (e, bad) ↦ absurd (ground (arith, h, bad))
        | inl (tt, known) ↦ elim (Result-cases (check_shape world exp s)) [
          | inr (e, bad) ↦ absurd (ground (arith, h, known, unknown, bad))
          | inl (tt, shaped) ↦
              let fresh : Session = record s { observed_versions = []; observed_bytes = [] } in
              let outcome : Session × Result StoreError (Unit {0}) =
                check_sources world exp s exp.source_versions fresh in
              let run = check_expected-ok fingerprint s known unknown shaped in
              subst (λ result. Sees s result.0 node) (sym run)
                (stamp-Sees fingerprint s node outcome (ap (λ result. result.1) (sym run) ∙ h)
                  (check_sources-Sees s exp.source_versions fresh node (inr listed)))
        ]
      ]
