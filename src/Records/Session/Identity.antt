-- ===== src/Records/Session/Identity.antt =====
-- src/records/store.rs, the identity and the write authority of a store, with `authority_matches` of
-- src/sources/projects.rs.
use oh_my_document.Prelude.{
  Bool, true, false, not, ◌&&◌, ◌||◌, List, [], ◌∷◌, ◌++◌, any, retain, contains, starts_with, Text,
  text_eq, nat_eq, Option, none, some, is_none, is_some, codes, Result, ok, err, ◌>>=◌, ◌>>◌, ok_or,
  refuse_if, if◌then◌else◌, ◌==◌,
}
use oh_my_document.Prelude.Equality.{list_beq, option_beq}
use oh_my_document.Prelude.Maps.{lookup, keys}
use oh_my_document.Records.Crates.{Crates}
use oh_my_document.Records.Store.{StoreError, conflict, invalid_record, io}
use oh_my_document.Records.Session.{
  Session, World, ProjectMap, AuthorityMap, RemoteIdentity, ProjectRegistration,
}

-- `format!("project:{alias}")`.
abbrev pub project_key : Text → Text
project_key alias = codes "project:" ++ alias

-- The text of an error about a name. What the program appends to it, the text of another error or a
-- value for debugging, is left out.
abbrev pub about : Text → Text → Text → Text
about before name after = before ++ (name ++ after)

unfoldable pub map_same : ProjectMap → ProjectMap → Bool
map_same a b =
    a.alias == b.alias
    && (a.project_id == b.project_id
        && (a.store_id == b.store_id
            && (a.project_root == b.project_root
                && (a.metadata_root == b.metadata_root
                    && (list_beq a.recognized_remote_urls b.recognized_remote_urls
                        && (option_beq a.recognized_registration b.recognized_registration
                            && a.revision == b.revision))))))

-- The placements of this very store at this place.
unfoldable pub selected_here : Session → (alias project_root : Text) → ProjectMap → Bool
selected_here s alias root map =
    map.alias == alias
    && (map.project_id == s.project_id
        && (map.store_id == s.stored.state.store_id
            && (map.project_root == root && map.metadata_root == s.metadata_root)))

-- The URL that is configured is that of the registration, or one that was recognized for it.
unfoldable pub url_known : Session → (alias : Text) → ProjectMap → RemoteIdentity → Text → Bool
url_known s alias mapping remote actual =
    actual == remote.url
    || (option_beq mapping.recognized_registration
          (lookup (project_key alias) s.stored.state.registrations)
        && contains actual mapping.recognized_remote_urls)

-- One authority, and one alone, is for this store at this place.
unfoldable pub authority_for : (project_id store_id root metadata : Text) → AuthorityMap → Bool
authority_for project_id store_id root metadata map =
    map.project_id == project_id
    && (map.store_id == store_id && (map.project_root == root && map.metadata_root == metadata))

unfoldable pub is_single : {A : Type 0} → List A → Bool
is_single (_ ∷ []) = true
is_single _ = false

-- `identity` is taken apart: of its fields these two are read.
unfoldable pub authority_matches :
    World → (project_root metadata_root project_id store_id : Text) → Result Text Bool
authority_matches world project_root metadata_root project_id store_id = do
  root ← world.canonical project_root
  metadata ← world.canonical metadata_root
  authorities ← world.authorities
  ok (is_single (retain (authority_for project_id store_id root metadata) authorities))

-- `unwrap_or(false)`.
abbrev pub or_false : {E : Type 0} → Result E Bool → Bool
or_false (ok b) = b
or_false (err e) = false

unfoldable pub has_write_authority : World → Session → Bool
has_write_authority world s =
    if not s.stored.state.activated
    then false
    else if s.initialized_here
    then true
    else elim s.project_root [
      | none ↦ false
      | some root ↦
          is_some s.config_cwd
          && or_false
              (authority_matches world root s.metadata_root s.project_id s.stored.state.store_id)
    ]

module _ ⦃crates : Crates⦄ (world : World) where
  -- `ProjectRegistration::id`.
  unfoldable pub registration_id : ProjectRegistration → Text
  registration_id r = crates.hex_encode (crates.sha256 (world.registration_text r))

  unfoldable pub project_registration : Session → Text → Result StoreError ProjectRegistration
  project_registration s alias = do
    id ←
        ok_or (lookup (project_key alias) s.stored.state.registrations)
          (invalid_record (codes "project alias is not registered: " ++ alias))
    r ← ok_or (lookup id s.registered) io
    refuse_if
        (not (r.format == codes "omd.registration/1")
          || (not (r.alias == alias)
              || (not (r.project_id == s.project_id)
                  || (not (r.store_id == s.stored.state.store_id)
                      || (r.revision == 0 || not (registration_id r == id))))))
        (invalid_record (about (codes "project registration ") alias (codes " is invalid")))
    ok r

  unfoldable pub remote_diagnostic :
      Session → (alias project_root : Text) → ProjectMap → RemoteIdentity → Option Text
  remote_diagnostic s alias root mapping remote = elim (world.remote_url root remote.name) [
    | err message ↦ some message
    | ok actual ↦
        if url_known s alias mapping remote actual
        then none
        else some (about (codes "project ") alias (codes " remote URL mismatch"))
  ]

  unfoldable pub registration_diagnostic :
      Session → (alias project_root : Text) → ProjectMap → Option Text
  registration_diagnostic s alias root mapping = elim (project_registration s alias) [
    | err _ ↦ some (about (codes "project registration ") alias (codes " unreadable"))
    | ok registration ↦ elim registration.remote [
      | none ↦ none
      | some remote ↦ remote_diagnostic s alias root mapping remote
    ]
  ]

  unfoldable pub mapping_diagnostic :
      Session → (alias project_root : Text) → List ProjectMap → Option Text
  mapping_diagnostic s alias root [] = some (
      about (codes "project mapping ") alias
        (codes " is missing; run `omd project list` or register it explicitly"))
  mapping_diagnostic s alias root (mapping ∷ rest) =
      if any (λ other. not (map_same other mapping)) (mapping ∷ rest)
      then some (
          about (codes "project mapping ") alias
            (codes " is ambiguous; run `omd project list` or register it explicitly"))
      else if not (option_beq (some mapping.revision) s.mapping_revision)
          || not (list_beq mapping.recognized_remote_urls s.recognized_remote_urls)
      then some
          (about (codes "project mapping ") alias (codes " revision changed; rerun verify/check"))
      else registration_diagnostic s alias root mapping

  unfoldable pub placed_diagnostic : Session → (alias project_root : Text) → Option Text
  placed_diagnostic s alias root = elim world.mappings [
    | err _ ↦ some (about (codes "project mapping ") alias (codes " unreadable"))
    | ok maps ↦ mapping_diagnostic s alias root (retain (selected_here s alias root) maps)
  ]

  -- What is wrong with the selected project, if anything is.
  unfoldable pub identity_diagnostic : Session → Option Text
  identity_diagnostic s = elim s.context_alias [
    | none ↦
        if any (starts_with (codes "project:")) (keys s.stored.state.registrations)
        then some (
            codes
              "registered project identity has no selected local mapping; select or repair it explicitly")
        else none
    | some alias ↦
        if is_none s.config_cwd
        then none
        else elim s.project_root [ none ↦ none | some root ↦ placed_diagnostic s alias root ]
  ]

  unfoldable pub require_identity : Session → Result StoreError (Unit {0})
  require_identity s = elim (identity_diagnostic s) [
    | none ↦ ok tt
    | some message ↦ err (conflict message)
  ]

  unfoldable pub require_write_authority : Session → Result StoreError (Unit {0})
  require_write_authority s =
      require_identity s
      >> refuse_if (not (has_write_authority world s)) (
          conflict
            (codes "store is an unregistered copy: business writes require explicit activation"))
