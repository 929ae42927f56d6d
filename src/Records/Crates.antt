-- ===== src/Records/Crates.antt =====
-- The third-party code that records rest on: `time` (timestamps), `hex` and `sha2`.
use oh_my_document.Prelude.{Bool, Text, Option}
use oh_my_document.Records.Id.{Bytes}

pub record Crates : Type 0 where
  -- `time::OffsetDateTime::parse(_, Rfc3339).is_ok()`.
  pub is_rfc3339 : Text → Bool
  -- `hex::decode`.
  pub hex_decode : Text → Option Bytes
  -- `Sha256::digest`.
  pub sha256 : Bytes → Bytes
  pub hex_encode : Bytes → Text
