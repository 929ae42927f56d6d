-- ===== src/Sources.antt =====
-- src/sources: where tracked content comes from.
pub mod Reference
pub mod Scope
use oh_my_document.Prelude.{Text}

pub data SourceError : Type 0 where
  io encoding : SourceError
  invalid command_failed unavailable : Text → SourceError
