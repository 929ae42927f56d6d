-- ===== src/Records/Pipeline/Source/Observe.antt =====
-- src/records/pipeline.rs, `commit_source`: the observation that a record is made from.
use oh_my_document.Prelude.{
  ℕ, Bool, true, false, not, ◌&&◌, [], length, Text, text_eq, Option, none, some, is_some, codes,
  Result, ok, err, ◌>>=◌, ◌>>◌, map_err, ok_or, refuse_if, if◌then◌else◌, unwrap_or,
}
use mathlib.Core.Option
use oh_my_document.Prelude.Equality.{option_beq}
use oh_my_document.Prelude.Maps.{lookup, contains_key}
use oh_my_document.Records.Id.{Bytes}
use oh_my_document.Records.Json
use oh_my_document.Records.Json.{string, Payload}
use oh_my_document.Records.Version.{SourceVersion}
use oh_my_document.Records.Store.{conflict}
use oh_my_document.Sources.{SourceError}
use oh_my_document.Sources.Reference.{SourceDescriptor}
use oh_my_document.Relations.Node.Position.{position_from_value}
use oh_my_document.Relations.Range
use oh_my_document.Relations.Range.{Range, Mode, text, byte, text_len}
use oh_my_document.Records.Session.{Session}
use oh_my_document.Records.Session.Identity.{about}
use oh_my_document.Records.Session.Evidence.{Expected, descriptor_beq}
use oh_my_document.Records.Pipeline.{PipelineError, source, store, input}

pub record Observation : Type 0 where
  pub bytes : Bytes
  pub is_text : Bool
  pub encoding : Option Text

-- The parts of the machine that a source needs: `normalize_descriptor` at the owning project or
-- `validate_portable`, and `decode` of the crate `encoding_rs`.
pub record Reader : Type 0 where
  pub normalized : SourceDescriptor → Result SourceError SourceDescriptor
  pub decode : Bytes → Text → Result SourceError Text

unfoldable pub payload_range : Payload → Option Range
payload_range payload = Option.bind (lookup (codes "position") payload) position_from_value

unfoldable pub is_byte_mode : Payload → Bool
is_byte_mode payload = elim (payload_range payload) [
  | none ↦ false
  | some r ↦ elim r.mode [ byte ↦ true | text ↦ false ]
]

-- The length of a source in the mode of a range.
unfoldable pub source_len : Reader → Mode → Bytes → Option Text → Result PipelineError ℕ
source_len reader byte bytes encoding = ok (length bytes)
source_len reader text bytes encoding =
    map_err (λ _. input (codes "range source cannot be decoded"))
      (reader.decode bytes (unwrap_or encoding (codes "utf-8")))
    >>= λ decoded. ok (text_len decoded)

unfoldable pub validate_range_payload :
    Reader → Payload → Bytes → Option Text → Result PipelineError (Unit {0})
validate_range_payload reader payload bytes encoding = elim (payload_range payload) [
  | none ↦ ok tt
  | some r ↦ source_len reader r.mode bytes encoding >>= λ len.
      map_err (λ _. input (codes "range")) (Range.new r.start r.end r.mode len) >>= λ _. ok tt
]

-- The node whose observation is asked for: the object itself, or else what it is mounted on.
unfoldable pub evidence_node : Expected → Payload → Text → Text
evidence_node expected payload node_key =
    if contains_key node_key expected.source_versions
    then node_key
    else unwrap_or (Option.bind (lookup (codes "mount") payload) Json.as_str) node_key

-- A first record: what was collected, without its view in byte mode.
unfoldable pub first_observation : Bool → Option Observation → Result PipelineError Observation
first_observation byte_mode none =
    err (input (codes "new source requires one collected observation"))
first_observation byte_mode (some o) =
    ok (if byte_mode then record o { is_text = false; encoding = none } else o)

-- Does the command ask for another encoding than that of the observation?
unfoldable pub view_changed : Bool → Option Text → Option Text → Bool
view_changed byte_mode recorded override_ =
    not byte_mode
    && (is_some recorded && (is_some override_ && not (option_beq recorded override_)))

-- A later record: the observation that the evidence checks have read, in the view that is asked
-- for, with its version where the view is the same.
unfoldable pub later_observation :
    Reader
    → Session
    → (node : Text) → SourceDescriptor
    → (byte_mode : Bool) → (override_ : Option Text)
    → Result PipelineError (Observation × Option SourceVersion)
later_observation reader s node acquisition byte_mode override_ = do
  version ← ok_or (lookup node s.observed_versions) (
      store
        (conflict (about (codes "successful source observation for ") node (codes " is required"))))
  bytes ← ok_or (lookup node s.observed_bytes) (
      store
        (conflict (about (codes "successful source observation for ") node (codes " is required"))))
  refuse_if (not (descriptor_beq version.acquisition acquisition)) (
      store (conflict (about (codes "source observation definition for ") node (codes " changed"))))
  let changed = view_changed byte_mode version.encoding override_
  if changed
      then (map_err source (reader.decode bytes (unwrap_or override_ [])) >>= λ _. ok tt)
      else ok tt
  ok (
    record {
      bytes = bytes;
      is_text = is_some version.encoding;
      encoding = if changed then override_ else version.encoding;
    },
    if changed then none else some version,
  )
