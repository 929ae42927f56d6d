-- ===== src/Records/Session/Changes/Activated.antt =====
-- What an activated copy is.
use oh_my_document.Prelude.{
  ◌+◌, ◌%◌, u64_mod, ap, true, false, Text, text_eq, text_beq_iff, ok, ◌≡◌, ◌≢◌, arith,
  Result-cases, Option-cases, inl, inr,
}
use oh_my_document.Prelude.Maps.{Map}
use oh_my_document.Records.Crates.{Crates}
use oh_my_document.Records.Session.{Session, World}
use oh_my_document.Records.Session.Identity.{has_write_authority, authority_matches}
use oh_my_document.Records.Session.Evidence.{Expected}
use oh_my_document.Records.Session.Changes.{set_state}
use oh_my_document.Records.Session.Changes.Copy.{activated_state, publish_copy_activation}

module _ ⦃crates : Crates⦄ (world : World) where
  -- An activation that is carried out is one of a copy that could not write. It changes the
  -- identity and the registrations to what was asked for, marks the copy as activated, counts the
  -- publication up, and leaves every other field of the state and the records as they were; the new
  -- identity is another one, and the copy has the authority to write.
  pub publish_copy_activation-authority :
      (exp : Expected) (new_store_id : Text) (registrations : Map Text) (s next : Session)
      → publish_copy_activation world exp new_store_id registrations s ≡ ok next
      → (next.stored.state ≡ record s.stored.state {
        store_id = new_store_id;
        registrations = registrations;
        activated = true;
        publication = (s.stored.state.publication + 1) % u64_mod;
      })
        × (next.stored.commits ≡ s.stored.commits)
        × (has_write_authority world s ≡ false)
        × (new_store_id ≢ s.stored.state.store_id)
        × (has_write_authority world next ≡ true)
  unfolding publish_copy_activation has_write_authority activated_state set_state
  publish_copy_activation-authority exp new_store_id registrations s next h =
      elim (Option-cases s.project_root) [
        | inl none_selected ↦ absurd (ground (arith, h, none_selected))
        | inr (root, selected) ↦
            elim (Result-cases
              (authority_matches world root s.metadata_root s.project_id new_store_id)) [
                | inr (e, bad) ↦ absurd (ground (arith, h, selected, bad))
                | inl (matches, found) ↦
                    let made : next ≡ set_state (activated_state s new_store_id registrations) s =
                      ground (arith, h, selected, found) in
                    (
                      ap (λ session. session.stored.state) made,
                      ap (λ session. session.stored.commits) made,
                      ground (arith, h, selected, found),
                      λ same. absurd (
                          ground (
                            arith,
                            h,
                            selected,
                            found,
                            text_beq_iff new_store_id s.stored.state.store_id,
                            same,
                          )),
                      rw made (ground (arith, h, selected, found)),
                    )
              ]
      ]
