-- ===== src/Records/Session/Changes.antt =====
-- src/records/store.rs, the changes of a store that are no records of objects: recovery bindings,
-- registrations of projects, and the activation of a copy. The session that a change is given is the
-- one that `lock` leaves.
pub mod Copy
pub mod Bound
pub mod Registered
pub mod Activated
mod Tests
use oh_my_document.Prelude.{
  ℕ, ◌+◌, ◌%◌, ◌<◌, u64_mod, Bool, true, false, not, ◌&&◌, ◌||◌, List, [], ◌∷◌, ◌++◌, all, contains,
  length, Text, text_eq, nat_eq, Option, none, some, is_some, codes, Result, ok, err, ◌>>=◌, ◌>>◌,
  map_err, ok_or, refuse_if, if◌then◌else◌, ◌==◌, is_empty, strip_prefix, leb,
}
use oh_my_document.Prelude.Equality.{list_beq, option_beq, map_beq}
use oh_my_document.Prelude.Maps.{Map, lookup, insert, keys, contains_key}
use oh_my_document.Records.Crates.{Crates}
use oh_my_document.Records.Store.{State, StoreError, conflict, invalid_record, io}
use oh_my_document.Records.Session.{
  Session, World, Binding, RemoteIdentity, ProjectRegistration, validate_binding,
}
use oh_my_document.Records.Session.Identity.{
  about, project_key, project_registration, registration_id, has_write_authority, authority_matches,
  require_write_authority,
}
use oh_my_document.Records.Session.Evidence.{Expected, validate_metadata_expected, check_expected}

-- `set_state_locked`: the state file is replaced, and the state in memory.
unfoldable pub set_state : State → Session → Session
set_state state s = record s { stored = record s.stored { state = state } }

-- `state.publication += 1`.
abbrev pub next_publication : State → ℕ
next_publication state = (state.publication + 1) % u64_mod

-- `write_immutable` of a binding, and the state that selects it.
unfoldable pub add_binding : Binding → Session → Result StoreError Session
unfolding set_state
add_binding b s = do
  validate_binding b b.id b.version_id
  refuse_if (contains_key b.id s.bindings)
      (invalid_record (about (codes "immutable record exists: bindings/") b.id (codes ".toml")))
  let state = s.stored.state
  ok (
      set_state
        (record state {
          bindings = insert b.version_id b.id state.bindings;
          publication = next_publication state;
        })
        (record s { bindings = insert b.id b s.bindings }))

-- `alias.is_empty()`, and what an alias and the lines of a remote may not be.
unfoldable pub is_line : Text → Bool
is_line s = not (is_empty s) && (not (contains 10 s) && (not (contains 13 s) && not (contains 0 s)))

unfoldable pub remote_ok : Option RemoteIdentity → Bool
remote_ok none = true
remote_ok (some remote) = is_line remote.name && is_line remote.url

unfoldable pub same_remote : Option RemoteIdentity → Option RemoteIdentity → Bool
same_remote none none = true
same_remote (some a) (some b) = a.name == b.name && a.url == b.url
same_remote _ _ = false

unfoldable pub bind_checked :
    Binding → Session × Result StoreError (Unit {0}) → Session × Result StoreError (Unit {0})
bind_checked b (seen, err e) = (seen, err e)
bind_checked b (seen, ok _) = elim (add_binding b seen) [
  | err e ↦ (seen, err e)
  | ok next ↦ (next, ok tt)
]

unfoldable pub state_checked :
    State → Session × Result StoreError (Unit {0}) → Session × Result StoreError (Unit {0})
state_checked state (seen, err e) = (seen, err e)
state_checked state (seen, ok _) = (set_state state seen, ok tt)

unfoldable pub next_revision : Option ProjectRegistration → ℕ
next_revision none = 1
next_revision (some r) = (r.revision + 1) % u64_mod

module _ ⦃crates : Crates⦄ (world : World) where
  unfoldable pub publish_binding :
      Expected → (fingerprint : Text) → Binding → Session → Session × Result StoreError (Unit {0})
  publish_binding exp fingerprint b s = elim (world.locked >> require_write_authority world s) [
    | err e ↦ (s, err e)
    | ok _ ↦ bind_checked b (check_expected world exp fingerprint s)
  ]

  unfoldable pub set_state_expected :
      Expected → (fingerprint : Text) → State → Session → Session × Result StoreError (Unit {0})
  set_state_expected exp fingerprint state s =
      elim (world.locked >> require_write_authority world s) [
        | err e ↦ (s, err e)
        | ok _ ↦ state_checked state (check_expected world exp fingerprint s)
      ]

  -- The registration that is selected for an alias, if one is.
  unfoldable pub current_registration :
      Session → Text → Result StoreError (Option ProjectRegistration)
  current_registration s alias =
      if contains_key (project_key alias) s.stored.state.registrations
      then (project_registration world s alias >>= λ r. ok (some r))
      else ok none

  unfoldable pub add_registration :
      Session → ProjectRegistration → Result StoreError (Text × Session)
  unfolding set_state
  add_registration s r = do
    let id = registration_id world r
    refuse_if (contains_key id s.registered) (
        invalid_record (about (codes "immutable record exists: registrations/") id (codes ".toml")))
    let state = s.stored.state
    ok (
      id,
      set_state
          (record state {
            registrations = insert (project_key r.alias) id state.registrations;
            publication = next_publication state;
          })
          (record s { registered = insert id r s.registered }),
    )

  -- A registration that is there already, with this remote, stays.
  unfoldable pub register_anew :
      Session
      → (alias : Text) → (remote : Option RemoteIdentity) → Option ProjectRegistration
      → Result StoreError (Text × Session)
  register_anew s alias remote current = add_registration s (record {
    format = codes "omd.registration/1";
    alias = alias;
    project_id = s.project_id;
    store_id = s.stored.state.store_id;
    revision = next_revision current;
    remote = remote;
  })

  unfoldable pub register_project :
      (alias : Text)
      → (remote : Option RemoteIdentity) → Expected
      → Session
      → Result StoreError (Text × Session)
  register_project alias remote exp s = do
    refuse_if (is_empty alias || alias == codes "root") (
        invalid_record
          (codes "project alias must be non-empty and cannot be reserved alias 'root'"))
    refuse_if (not (remote_ok remote))
        (invalid_record (codes "remote name and URL must be non-empty single-line values"))
    world.locked
    validate_metadata_expected world s exp
    current ← current_registration s alias
    elim current [
      | none ↦ register_anew s alias remote none
      | some r ↦
          if same_remote r.remote remote
          then (ok_or (lookup (project_key alias) s.stored.state.registrations) io >>= λ id.
              ok (id, s))
          else register_anew s alias remote (some r)
    ]
