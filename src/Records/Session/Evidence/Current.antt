-- ===== src/Records/Session/Evidence/Current.antt =====
-- What evidence that is accepted says of the store.
use oh_my_document.Prelude.{
  text_eq, text_beq_iff, nat_eq, codes, ok, Result-cases, inl, inr, ◌↔◌, ◌≡◌, arith,
}
use oh_my_document.Prelude.Equality.{map_beq_iff, option_beq_iff}
use oh_my_document.Records.Session.{Session, World}
use oh_my_document.Records.Session.Evidence.{
  Expected, live_mapping_revision, validate_metadata_expected,
}

-- The evidence is what is there now.
pub record IsCurrent (world : World) (s : Session) (exp : Expected) : Type 0 where
  pub format : exp.format ≡ codes "omd.expected/4"
  pub context : exp.instance_ ≡ s.context_instance
  pub revision : live_mapping_revision world s ≡ ok exp.mapping_revision
  pub project : exp.project_id ≡ s.project_id
  pub store_ : exp.store_id ≡ s.stored.state.store_id
  pub publication : exp.publication ≡ s.stored.state.publication
  pub tips : exp.tips ≡ s.stored.state.tips
  pub registrations : exp.registrations ≡ s.stored.state.registrations
  pub peers : exp.peer_registrations ≡ s.stored.state.peers

-- Evidence on the metadata is accepted exactly where each part of it is what is there now.
pub validate_metadata_expected_iff :
    (world : World) (s : Session) (exp : Expected)
    → (validate_metadata_expected world s exp ≡ ok tt) ↔ IsCurrent world s exp
unfolding validate_metadata_expected
validate_metadata_expected_iff world s exp = (
  λ h. elim (Result-cases (live_mapping_revision world s)) [
    | inr (e, broken) ↦ absurd (ground (arith, h, broken))
    | inl (live, found) ↦ record {
      format = ground (arith, h, found, text_beq_iff exp.format (codes "omd.expected/4"));
      context = ground (arith, h, found, text_beq_iff exp.instance_ s.context_instance);
      revision = ground (arith, h, found, option_beq_iff exp.mapping_revision live);
      project = ground (arith, h, found, text_beq_iff exp.project_id s.project_id);
      store_ = ground (arith, h, found, text_beq_iff exp.store_id s.stored.state.store_id);
      publication = ground (arith, h, found);
      tips = ground (arith, h, found, map_beq_iff exp.tips s.stored.state.tips);
      registrations =
          ground (arith, h, found, map_beq_iff exp.registrations s.stored.state.registrations);
      peers = ground (arith, h, found, map_beq_iff exp.peer_registrations s.stored.state.peers);
    }
  ],
  λ c. ground (
    arith,
    c.format,
    c.context,
    c.revision,
    c.project,
    c.store_,
    c.publication,
    c.tips,
    c.registrations,
    c.peers,
    text_beq_iff exp.format (codes "omd.expected/4"),
    text_beq_iff exp.instance_ s.context_instance,
    option_beq_iff exp.mapping_revision exp.mapping_revision,
    text_beq_iff exp.project_id s.project_id,
    text_beq_iff exp.store_id s.stored.state.store_id,
    map_beq_iff exp.tips s.stored.state.tips,
    map_beq_iff exp.registrations s.stored.state.registrations,
    map_beq_iff exp.peer_registrations s.stored.state.peers,
  ),
)
