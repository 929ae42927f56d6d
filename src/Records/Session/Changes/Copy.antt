-- ===== src/Records/Session/Changes/Copy.antt =====
-- src/records/store.rs, `publish_copy_activation`: a copy of a store gets an identity of its own.
use oh_my_document.Prelude.{
  ℕ, Bool, true, not, ◌&&◌, ◌||◌, [], ◌∷◌, ◌++◌, all, length, Text, text_eq, nat_eq, none, some,
  codes, Result, ok, ◌>>=◌, ◌>>◌, map_err, ok_or, refuse_if, ◌==◌, strip_prefix, leb,
}
use oh_my_document.Prelude.Equality.{list_beq, option_beq, map_beq}
use oh_my_document.Prelude.Maps.{Map, lookup, keys}
use oh_my_document.Records.Crates.{Crates}
use oh_my_document.Records.Store.{State, StoreError, conflict, invalid_record, io}
use oh_my_document.Records.Session.{Session, World}
use oh_my_document.Records.Session.Identity.{
  registration_id, has_write_authority, authority_matches,
}
use oh_my_document.Records.Session.Evidence.{Expected}
use oh_my_document.Records.Session.Changes.{set_state, next_publication}

-- `valid_identity`.
abbrev is_lower_hex : ℕ → Bool
is_lower_hex c = leb 48 c && leb c 57 || leb 97 c && leb c 102

unfoldable pub valid_identity : Text → Bool
valid_identity s = length s == 32 && all is_lower_hex s

-- The evidence of an activation, which `validate_metadata_expected` does not judge.
unfoldable pub activation_current : Expected → Session → Bool
activation_current exp s =
    exp.format == codes "omd.expected/4"
    && (exp.instance_ == s.context_instance
        && (option_beq exp.mapping_revision s.mapping_revision
            && (exp.project_id == s.project_id
                && (exp.store_id == s.stored.state.store_id
                    && (exp.publication == s.stored.state.publication
                        && (map_beq exp.tips s.stored.state.tips
                            && (map_beq exp.registrations s.stored.state.registrations
                                && map_beq exp.peer_registrations s.stored.state.peers)))))))

unfoldable pub activated_state : Session → (new_store_id : Text) → Map Text → State
activated_state s new_store_id registrations = record s.stored.state {
  store_id = new_store_id;
  registrations = registrations;
  activated = true;
  publication = next_publication s.stored.state;
}

module _ ⦃crates : Crates⦄ (world : World) where
  -- The registration that an activation selects for an alias.
  unfoldable pub check_activated :
      Session → (new_store_id : Text) → (alias selected_id : Text) → Result StoreError (Unit {0})
  check_activated s new_store_id alias selected_id =
      ok_or (lookup selected_id s.registered) io >>= λ r.
      refuse_if
        (not (r.alias == alias)
          || (not (r.project_id == s.project_id)
              || (not (r.store_id == new_store_id)
                  || not (registration_id world r == selected_id))))
        (invalid_record (codes "copy activation registration is inconsistent: " ++ alias))

  unfoldable pub check_registrations :
      Session → (new_store_id : Text) → Map Text → Result StoreError (Unit {0})
  check_registrations s new_store_id [] = ok tt
  check_registrations s new_store_id ((key, selected_id) ∷ rest) =
      let later = check_registrations s new_store_id rest in
      (elim (strip_prefix (codes "project:") key) [
        | none ↦
            refuse_if
              (not (option_beq (lookup key s.stored.state.registrations) (some selected_id)))
              (invalid_record (codes "copy activation changed a non-project registration"))
        | some alias ↦ check_activated s new_store_id alias selected_id
      ])
      >> later

  unfoldable pub publish_copy_activation :
      Expected
      → (new_store_id : Text) → (registrations : Map Text) → Session
      → Result StoreError Session
  publish_copy_activation exp new_store_id registrations s = do
    world.locked
    refuse_if (not (activation_current exp s))
        (conflict (codes "copy activation evidence changed before final publication"))
    refuse_if (has_write_authority world s)
        (conflict (codes "selected instance is already writable"))
    refuse_if
        (not (valid_identity new_store_id)
          || (new_store_id == s.stored.state.store_id || new_store_id == s.project_id))
        (invalid_record (codes "activated copy requires a new distinct 128-bit store identity"))
    refuse_if (not (list_beq (keys registrations) (keys s.stored.state.registrations)))
        (invalid_record (codes "copy activation cannot add or remove project registrations"))
    check_registrations s new_store_id registrations
    _ ← ok_or s.config_cwd (conflict (codes "copy activation requires local configuration"))
    root ←
        ok_or s.project_root (conflict (codes "copy activation requires a selected project root"))
    matches ←
        map_err conflict (authority_matches world root s.metadata_root s.project_id new_store_id)
    refuse_if (not matches)
        (conflict (codes "activated copy authority mapping is missing or mismatched"))
    ok (set_state (activated_state s new_store_id registrations) s)
