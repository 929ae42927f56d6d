-- ===== src/Records/Version.antt =====
-- src/records/version.rs: complete source versions and their validation.
use oh_my_document.Prelude.{
  is_hexdigit, ℕ, Bool, false, not, ◌&&◌, ◌||◌, [], ◌++◌, length, all, Text, text_eq, nat_eq,
  Option, none, some, codes, Result, ◌>>◌, map_err, refuse_if, ◌==◌,
}
use oh_my_document.Records.Id.{Bytes}
use oh_my_document.Records.Crates.{Crates}
use oh_my_document.Sources.Reference.{SourceDescriptor}
use oh_my_document.Sources.Reference.Paths.{validate_portable}

pub record SourceVersion : Type 0 where
  pub format : Text
  pub id : Bytes
  pub byte_count : ℕ
  pub sha256 : Text
  pub acquisition : SourceDescriptor
  pub recovery : SourceDescriptor
  pub encoding : Option Text
  pub content_file : Option Text

-- The messages of errors.
pub data VersionError : Type 0 where
  bad_format bad_descriptor bad_hash bad_length : VersionError

module _ ⦃crates : Crates⦄ where
  unfoldable pub content_sha256 : Bytes → Text
  content_sha256 content = crates.hex_encode (crates.sha256 content)

  unfoldable pub new_with_recovery :
      Bytes → Bytes → SourceDescriptor → SourceDescriptor → Option Text → SourceVersion
  new_with_recovery id content acquisition recovery encoding = record {
    format = codes "omd.version/2";
    id = id;
    byte_count = length content;
    sha256 = content_sha256 content;
    acquisition = acquisition;
    recovery = recovery;
    encoding = encoding;
    content_file = none;
  }

  -- `content_file.is_some_and(|path| path != format!("content/{}", self.sha256))`.
  unfoldable pub misplaced : SourceVersion → Bool
  misplaced v = elim v.content_file [
    | none ↦ false
    | some path ↦ not (path == codes "content/" ++ v.sha256)
  ]

  unfoldable pub validate : SourceVersion → Result VersionError (Unit {0})
  unfolding misplaced
  validate v = do
    refuse_if (not (v.format == codes "omd.version/2")) bad_format
    map_err (λ _. bad_descriptor) (validate_portable v.acquisition)
    map_err (λ _. bad_descriptor) (validate_portable v.recovery)
    refuse_if (not (length v.sha256 == 64) || (not (all is_hexdigit v.sha256) || misplaced v))
        bad_hash
    refuse_if (v.byte_count == 0 && not (v.sha256 == content_sha256 [])) bad_length
