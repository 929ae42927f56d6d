-- ===== src/Records/Session/Changes/Registered.antt =====
-- The registrations that a store reads after `register_project`.
use oh_my_document.Prelude.{
  ◌+◌, ◌<◌, u64_mod, true, Text, text_eq, text_beq_iff, Option, none, some, codes, ok, ◌≡◌, ◌≢◌,
  ◌∙◌, ◌↔◌, ap, subst, refl, arith, Result-cases, Bool-cases, Option-cases, inl, inr,
}
use oh_my_document.Prelude.Maps.{lookup, lookup-insert}
use oh_my_document.Records.Crates.{Crates}
use oh_my_document.Records.Session.{Session, World, RemoteIdentity, ProjectRegistration}
use oh_my_document.Records.Session.Identity.{project_key, registration_id, project_registration}
use oh_my_document.Records.Session.Evidence.{Expected}
use oh_my_document.Records.Session.Changes.{
  set_state, same_remote, next_revision, current_registration, add_registration, register_anew,
  register_project,
}

same_remote_iff : (a b : Option RemoteIdentity) → (same_remote a b ≡ true) ↔ (a ≡ b)
unfolding same_remote
same_remote_iff none none = ground arith
same_remote_iff none (some b) = ground arith
same_remote_iff (some a) none = ground arith
same_remote_iff (some a) (some b) =
    ground (arith, text_beq_iff a.name b.name, text_beq_iff a.url b.url)

module _ ⦃crates : Crates⦄ (world : World) where
  add_registration-read :
      (s : Session) (r : ProjectRegistration) (id : Text) (next : Session)
      → r.format ≡ codes "omd.registration/1"
      → r.project_id ≡ s.project_id
      → r.store_id ≡ s.stored.state.store_id
      → r.revision ≢ 0
      → add_registration world s r ≡ ok (id, next)
      → project_registration world next r.alias ≡ ok r
  unfolding add_registration project_registration set_state
  add_registration-read s r id next format project store revision h =
      let key = project_key r.alias in
      let i = registration_id world r in
      ground (
        arith,
        h,
        format,
        project,
        store,
        revision,
        lookup-insert key key i s.stored.state.registrations,
        lookup-insert i i r s.registered,
        text_beq_iff key key,
        text_beq_iff i i,
        text_beq_iff r.format (codes "omd.registration/1"),
        text_beq_iff r.alias r.alias,
        text_beq_iff r.project_id s.project_id,
        text_beq_iff r.store_id s.stored.state.store_id,
      )

  add_registration-selected :
      (s : Session) (r : ProjectRegistration) (id : Text) (next : Session)
      → add_registration world s r ≡ ok (id, next)
      → lookup (project_key r.alias) next.stored.state.registrations ≡ some id
  unfolding add_registration set_state
  add_registration-selected s r id next h =
      let key = project_key r.alias in
      ground (
        arith,
        h,
        lookup-insert key key (registration_id world r) s.stored.state.registrations,
        text_beq_iff key key,
      )

  revision-positive :
      (current : Option ProjectRegistration)
      → ((r : ProjectRegistration) → current ≡ some r → r.revision + 1 < u64_mod)
      → next_revision current ≢ 0
  unfolding next_revision
  revision-positive none bound = λ e. omega (arith, e)
  revision-positive (some r) bound = λ e. omega (arith, e, bound r refl)

  current_registration-some :
      (s : Session) (alias : Text) (r : ProjectRegistration)
      → current_registration world s alias ≡ ok (some r)
      → project_registration world s alias ≡ ok r
  unfolding current_registration
  current_registration-some s alias r h = elim (Result-cases (project_registration world s alias)) [
    | inr (e, bad) ↦ absurd (ground (arith, h, bad))
    | inl (found, good) ↦ ground (arith, h, good)
  ]

  -- The registration of the alias is read, and has the remote.
  abbrev pub Registers : (alias : Text) → Option RemoteIdentity → (id : Text) → Session → Type 0
  Registers alias remote id next =
      (r : ProjectRegistration) × (project_registration world next alias ≡ ok r)
      × (r.remote ≡ remote)
      × (lookup (project_key alias) next.stored.state.registrations ≡ some id)

  register_anew-read :
      (s : Session) (alias : Text) (remote : Option RemoteIdentity)
      (current : Option ProjectRegistration) (id : Text) (next : Session)
      → next_revision current ≢ 0
      → register_anew world s alias remote current ≡ ok (id, next)
      → Registers alias remote id next
  unfolding register_anew
  register_anew-read s alias remote current id next positive h =
      let r : ProjectRegistration = record {
        format = codes "omd.registration/1";
        alias = alias;
        project_id = s.project_id;
        store_id = s.stored.state.store_id;
        revision = next_revision current;
        remote = remote;
      } in
      (
        r,
        add_registration-read s r id next refl refl refl positive h,
        refl,
        add_registration-selected s r id next h,
      )

  -- A project that is registered, with a revision that has not reached its last value, has a
  -- registration that can be read back with the remote that was asked for.
  pub register_project-project_registration :
      (alias : Text) (remote : Option RemoteIdentity) (exp : Expected) (s next : Session)
      (id : Text)
      → ((r : ProjectRegistration)
          → project_registration world s alias ≡ ok r
          → r.revision + 1 < u64_mod)
      → register_project world alias remote exp s ≡ ok (id, next)
      → Registers alias remote id next
  unfolding register_project
  register_project-project_registration alias remote exp s next id bound h =
      elim (Result-cases (current_registration world s alias)) [
        | inr (e, bad) ↦ absurd (ground (arith, h, bad))
        | inl (none, found) ↦
            register_anew-read s alias remote none id next
              (revision-positive none (λ r e. absurd (ground (arith, e))))
              (ground (arith, h, found))
        | inl (some r, found) ↦
            let read = current_registration-some s alias r found in
            elim (Bool-cases (same_remote r.remote remote)) [
              | inl same ↦
                  elim (Option-cases (lookup (project_key alias) s.stored.state.registrations)) [
                    | inl missing ↦ absurd (ground (arith, h, found, same, missing))
                    | inr (old, selected) ↦
                        let stays : s ≡ next = ground (arith, h, found, same, selected) in
                        let id_is : old ≡ id = ground (arith, h, found, same, selected) in
                        subst (λ (n : Session). Registers alias remote id n) stays
                          (
                            r,
                            read,
                            (same_remote_iff r.remote remote).0 same,
                            selected ∙ ap (λ (i : Text). some i) id_is,
                          )
                  ]
              | inr other ↦
                  register_anew-read s alias remote (some r) id next
                    (revision-positive (some r) (λ q e. bound q (read ∙ ground (arith, e))))
                    (ground (arith, h, found, other))
            ]
      ]
