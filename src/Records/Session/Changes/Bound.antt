-- ===== src/Records/Session/Changes/Bound.antt =====
-- The recovery bindings that a session reads.
use oh_my_document.Prelude.{
  ◌>>◌, [], ◌∷◌, Text, text_eq, text_beq_iff, Option, some, ok, Result, err, ◌≡◌, ◌≢◌, ◌∙◌, sym, ap,
  ap₂, subst, refl, arith, Result-cases, Option-cases, inl, inr,
}
use oh_my_document.Prelude.Maps.{Map, lookup, insert, lookup-insert, contains_key}
use oh_my_document.Records.Crates.{Crates}
use oh_my_document.Records.Store.{StoreError, Store}
use oh_my_document.Records.Session.{Session, World, Binding, read_binding}
use oh_my_document.Records.Session.Identity.{require_write_authority}
use oh_my_document.Records.Session.Evidence.{
  Expected, check_expected, check_sources, check_source, stamp,
}
use oh_my_document.Records.Session.Changes.{add_binding, bind_checked, publish_binding, set_state}

module _ ⦃crates : Crates⦄ (world : World) where
  check_sources-kept :
      (exp : Expected) (s : Session) (sources : Map Text) (seen : Session)
      → ((check_sources world exp s sources seen).0.stored ≡ seen.stored)
        × ((check_sources world exp s sources seen).0.bindings ≡ seen.bindings)
  unfolding check_sources
  check_sources-kept exp s [] seen = (refl, refl)
  check_sources-kept exp s ((node, id) ∷ sources) seen =
      elim (Result-cases (check_source world exp s node id)) [
        | inr (e, bad) ↦ (ground (arith, bad), ground (arith, bad))
        | inl ((version, bytes), good) ↦
            let next : Session = record seen {
              observed_versions = insert node version seen.observed_versions;
              observed_bytes = insert node bytes seen.observed_bytes;
            } in
            let (stored, bound) = check_sources-kept exp s sources next in
            (ground (arith, good, stored), ground (arith, good, bound))
      ]

  -- The checks of evidence change the observations and nothing else.
  pub check_expected-kept :
      (exp : Expected) (fingerprint : Text) (s : Session)
      → ((check_expected world exp fingerprint s).0.stored ≡ s.stored)
        × ((check_expected world exp fingerprint s).0.bindings ≡ s.bindings)
  unfolding check_expected stamp
  check_expected-kept exp fingerprint s =
      let fresh : Session = record s { observed_versions = []; observed_bytes = [] } in
      let (stored, bound) = check_sources-kept exp s exp.source_versions fresh in
      (ground (arith, stored), ground (arith, bound))

  add_binding-read :
      (b : Binding) (s next : Session)
      → add_binding b s ≡ ok next
      → read_binding next b.version_id ≡ ok (some b)
  unfolding add_binding read_binding set_state
  add_binding-read b s next h = ground (
    arith,
    h,
    lookup-insert b.version_id b.version_id b.id s.stored.state.bindings,
    lookup-insert b.id b.id b s.bindings,
    text_beq_iff b.version_id b.version_id,
    text_beq_iff b.id b.id,
  )

  add_binding-other :
      (b : Binding) (s next : Session) (other : Text) (old : Option Binding)
      → add_binding b s ≡ ok next
      → other ≢ b.version_id
      → read_binding s other ≡ ok old
      → read_binding next other ≡ ok old
  unfolding add_binding read_binding set_state contains_key
  add_binding-other b s next other old h differ read =
      elim (Option-cases (lookup other s.stored.state.bindings)) [
        | inl unbound ↦ ground (
          arith,
          h,
          read,
          unbound,
          differ,
          lookup-insert b.version_id other b.id s.stored.state.bindings,
          text_beq_iff b.version_id other,
        )
        | inr (id, bound) ↦ ground (
          arith,
          h,
          read,
          bound,
          differ,
          lookup-insert b.version_id other b.id s.stored.state.bindings,
          text_beq_iff b.version_id other,
          lookup-insert b.id id b s.bindings,
          text_beq_iff b.id id,
        )
      ]

  read_binding-kept :
      (s seen : Session) (other : Text)
      → seen.stored ≡ s.stored
      → seen.bindings ≡ s.bindings
      → read_binding seen other ≡ read_binding s other
  unfolding read_binding
  read_binding-kept s seen other stored bound =
      ap₂
        (λ (store : Store) (files : Map Binding).
          read_binding (record s { stored = store; bindings = files }) other)
        stored bound

  -- The binding is the one that is read for its version, and the bindings that were read for other
  -- versions still are.
  abbrev pub Binds : Session → Binding → Session → Type 0
  Binds s b next =
      (read_binding next b.version_id ≡ ok (some b))
      × ((other : Text) (old : Option Binding)
          → other ≢ b.version_id
          → read_binding s other ≡ ok old
          → read_binding next other ≡ ok old)

  bind_checked-read :
      (b : Binding) (s : Session) (outcome : Session × Result StoreError (Unit {0}))
      → outcome.0.stored ≡ s.stored
      → outcome.0.bindings ≡ s.bindings
      → (bind_checked b outcome).1 ≡ ok tt
      → Binds s b (bind_checked b outcome).0
  unfolding bind_checked
  bind_checked-read b s (seen, err e) stored bound h = absurd (ground (arith, h))
  bind_checked-read b s (seen, ok tt) stored bound h = elim (Result-cases (add_binding b seen)) [
    | inr (e, bad) ↦ absurd (ground (arith, h, bad))
    | inl (next, added) ↦
        let made : bind_checked b (seen, ok tt) ≡ (next, ok tt) = ground (arith, added) in
        subst (λ result. Binds s b result.0) (sym made)
          (
            add_binding-read b seen next added,
            λ other old differ read.
                add_binding-other b seen next other old added differ
                  (read_binding-kept s seen other stored bound ∙ read),
          )
  ]

  -- A binding that is published is the one that is read for its version, and the bindings that are
  -- read for other versions stay.
  pub publish_binding-read_binding :
      (exp : Expected) (fingerprint : Text) (b : Binding) (s : Session)
      → (publish_binding world exp fingerprint b s).1 ≡ ok tt
      → Binds s b (publish_binding world exp fingerprint b s).0
  unfolding publish_binding
  publish_binding-read_binding exp fingerprint b s h =
      elim (Result-cases (world.locked >> require_write_authority world s)) [
        | inr (e, bad) ↦ absurd (ground (arith, h, bad))
        | inl (tt, may) ↦
            let (stored, bound) = check_expected-kept exp fingerprint s in
            let checked = check_expected world exp fingerprint s in
            let run : publish_binding world exp fingerprint b s ≡ bind_checked b checked =
              ground (arith, may) in
            subst (λ result. Binds s b result.0) (sym run)
              (bind_checked-read b s checked stored bound (ap (λ result. result.1) (sym run) ∙ h))
      ]
