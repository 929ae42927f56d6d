-- ===== src/Records/Session/Evidence/Observed.antt =====
-- What an accepted observation of one source is.
use oh_my_document.Prelude.{
  true, Text, text_eq, text_beq_iff, some, ok, Result-cases, Option-cases, inl, inr, ◌↔◌, ◌≡◌, ◌∙◌,
  sym, arith,
}
use oh_my_document.Prelude.Equality.{list_beq_iff, option_beq_iff}
use oh_my_document.Prelude.Maps.{lookup}
use oh_my_document.Records.Id.{Bytes}
use oh_my_document.Records.Crates.{Crates}
use oh_my_document.Records.Version.{SourceVersion, content_sha256}
use oh_my_document.Sources.Reference.{SourceDescriptor, file, command, git}
use oh_my_document.Records.Session.{
  Session, World, source_version_id, read_version, current_acquisition, recover_version_bytes,
}
use oh_my_document.Records.Session.Evidence.{Expected, descriptor_beq, check_source}

pub descriptor_beq_iff : (a b : SourceDescriptor) → (descriptor_beq a b ≡ true) ↔ (a ≡ b)
unfolding descriptor_beq
descriptor_beq_iff (file p q) (file r s) = ground (arith, text_beq_iff p r, text_beq_iff q s)
descriptor_beq_iff (command e a) (command f b) = ground (arith, text_beq_iff e f, list_beq_iff a b)
descriptor_beq_iff (git p c q) (git r d s) =
    ground (arith, text_beq_iff p r, text_beq_iff c d, text_beq_iff q s)
descriptor_beq_iff (file p q) (command f b) = ground arith
descriptor_beq_iff (file p q) (git r d s) = ground arith
descriptor_beq_iff (command e a) (file r s) = ground arith
descriptor_beq_iff (command e a) (git r d s) = ground arith
descriptor_beq_iff (git p c q) (file r s) = ground arith
descriptor_beq_iff (git p c q) (command f b) = ground arith

module _ ⦃crates : Crates⦄ (world : World) (exp : Expected) where
  -- The observation of a node: the stored version that the evidence lists as acquired, of the
  -- source as the node has it now, on top of the content that its tip selects and that the evidence
  -- names as the basis, and bytes with the hash of that version.
  pub record IsFresh (s : Session) (node : Text) (version : SourceVersion) (bytes : Bytes)
      : Type 0 where
    pub version_read :
        (id : Text) × (lookup node exp.acquisition_versions ≡ some id)
        × (read_version s id ≡ ok version)
    pub basis :
        (id : Text) × (basis : SourceVersion) × (lookup node exp.basis_versions ≡ some id)
        × (source_version_id s.stored node ≡ ok (some id))
        × (read_version s id ≡ ok basis)
        × (current_acquisition s.stored.state node basis ≡ some version.acquisition)
        × ((old : Bytes) × (recover_version_bytes world s id ≡ ok old))
    pub hashed : content_sha256 bytes ≡ version.sha256
    pub evidence : lookup node exp.source_hashes ≡ some version.sha256

  check_source-hash :
      (s : Session) (node observed_id : Text) (version : SourceVersion) (bytes : Bytes)
      → check_source world exp s node observed_id ≡ ok (version, bytes)
      → (lookup node exp.source_hashes ≡ some version.sha256)
        × (content_sha256 bytes ≡ version.sha256)
  unfolding check_source
  check_source-hash s node observed_id version bytes h =
      elim (Option-cases (lookup node exp.source_hashes)) [
        | inl e ↦ absurd (ground (arith, h, e))
        | inr (hash, e) ↦
            let same : version.sha256 ≡ hash =
              ground (arith, h, e, text_beq_iff version.sha256 hash) in
            let hashed : content_sha256 bytes ≡ hash =
              ground (arith, h, e, text_beq_iff (content_sha256 bytes) hash) in
            (ground (arith, e, same), hashed ∙ sym same)
      ]

  check_source-acquired :
      (s : Session) (node observed_id : Text) (version : SourceVersion) (bytes : Bytes)
      → check_source world exp s node observed_id ≡ ok (version, bytes)
      → (id : Text) × (lookup node exp.acquisition_versions ≡ some id)
        × (read_version s id ≡ ok version)
  unfolding check_source
  check_source-acquired s node observed_id version bytes h =
      elim (Option-cases (lookup node exp.acquisition_versions)) [
        | inl e ↦ absurd (ground (arith, h, e))
        | inr (id, e) ↦
            let same : id ≡ observed_id = ground (arith, h, e, text_beq_iff id observed_id) in
            (id, e, rw same (ground (arith, h, e)))
      ]

  pub check_source-IsFresh :
      (s : Session) (node observed_id : Text) (version : SourceVersion) (bytes : Bytes)
      → check_source world exp s node observed_id ≡ ok (version, bytes)
      → IsFresh s node version bytes
  unfolding check_source
  check_source-IsFresh s node observed_id version bytes h =
      let hashes = check_source-hash s node observed_id version bytes h in
      elim (Option-cases (lookup node exp.basis_versions)) [
        | inl e1 ↦ absurd (ground (arith, h, e1))
        | inr (id, e1) ↦ elim (Result-cases (source_version_id s.stored node)) [
          | inr (x, e2) ↦ absurd (ground (arith, h, e1, e2))
          | inl (selected, e2) ↦ elim (Result-cases (read_version s id)) [
            | inr (x, e3) ↦ absurd (ground (arith, h, e1, e2, e3))
            | inl (basis, e3) ↦
                elim (Option-cases (current_acquisition s.stored.state node basis)) [
                  | inl e4 ↦ absurd (ground (arith, h, e1, e2, e3, e4))
                  | inr (current, e4) ↦ elim (Result-cases (recover_version_bytes world s id)) [
                    | inr (x, e5) ↦ absurd (ground (arith, h, e1, e2, e3, e4, e5))
                    | inl (old, e5) ↦ record {
                      version_read = check_source-acquired s node observed_id version bytes h;
                      basis = (
                        id,
                        basis,
                        e1,
                        e2
                            ∙ ground
                                (arith, h, e1, e2, e3, e4, e5, option_beq_iff selected (some id)),
                        e3,
                        e4
                            ∙ ground (
                              arith,
                              h,
                              e1,
                              e2,
                              e3,
                              e4,
                              e5,
                              descriptor_beq_iff current version.acquisition,
                            ),
                        (old, e5),
                      );
                      hashed = hashes.1;
                      evidence = hashes.0;
                    }
                  ]
                ]
          ]
        ]
      ]
