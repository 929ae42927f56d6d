-- ===== src/Records/Pipeline/Conflict.antt =====
-- Evidence that was taken before another command has written.
use oh_my_document.Prelude.{◌<◌, u64_mod, ok, Text, text_eq, some, false, ap, ◌≡◌, ◌≢◌, arith}
use oh_my_document.Prelude.Equality.{option_beq}
use oh_my_document.Records.Crates.{Crates}
use oh_my_document.Records.Session.{Session, World}
use oh_my_document.Records.Session.Evidence.{Expected, check_expected}
use oh_my_document.Records.Session.Evidence.Current.{validate_metadata_expected_iff}
use oh_my_document.Records.Session.Evidence.Fresh.{check_expected-metadata}
use oh_my_document.Records.Pipeline.{Env, Publication}
use oh_my_document.Records.Pipeline.Source.{Reader}
use oh_my_document.Records.Pipeline.Log.{Writes, Writes-Grows, published}

module _ ⦃crates : Crates⦄ (env : Env) (reader : Reader) where
  -- No update is lost: evidence that is accepted before a record is published is refused after it,
  -- in every session on the store with that record that does not remember having accepted this
  -- evidence. The session that accepted it before checked it and did not just remember it, and the
  -- publication number has not reached its last value.
  pub Writes-conflict :
      (world elsewhere : World) (s later : Session) (exp : Expected) (fingerprint : Text)
      (p : Publication)
      → Writes env reader s.stored p
      → s.stored.state.publication < u64_mod
      → option_beq s.validated_expected (some fingerprint) ≡ false
      → (check_expected world exp fingerprint s).1 ≡ ok tt
      → later.stored ≡ published s.stored p
      → option_beq later.validated_expected (some fingerprint) ≡ false
      → (check_expected elsewhere exp fingerprint later).1 ≢ ok tt
  unfolding published
  Writes-conflict world elsewhere s later exp fingerprint p w small new before at forgotten after =
      let (key, g) = Writes-Grows env reader s.stored p w in
      let old =
        (validate_metadata_expected_iff world s exp).0
          (check_expected-metadata world exp fingerprint s new before) in
      let now =
        (validate_metadata_expected_iff elsewhere later exp).0
          (check_expected-metadata elsewhere exp fingerprint later forgotten after) in
      let moved : later.stored.state.publication ≡ p.new_state.publication =
        ap (λ store. store.state.publication) at in
      absurd (omega (arith, old.publication, now.publication, moved, g.marker, small))
