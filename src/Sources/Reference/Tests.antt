-- ===== src/Sources/Reference/Tests.antt =====
-- Runs of descriptors and of the portable check.
use oh_my_document.Prelude.{
  true, false, [], Text, text_beq, Option, none, some, is_some, codes, starts_with, contains, ok,
  any, inl, ◌≡◌, refl,
}
use oh_my_document.Records.Json.{Value}
use oh_my_document.Sources.Reference.{
  SourceDescriptor, file, SourceFields, descriptor, file_descriptor, reject_command_fields,
  reject_git_fields, any_field, checked, validate,
}
use oh_my_document.Sources.Reference.Paths.{
  segments, walk_down, has_parent, leads_current, validate_shared_path, validate_portable,
  validate_portable-walk_down,
}

abbrev given : SourceFields
given = record {
  source_type = none;
  source_project = some (codes "docs");
  source_path = none;
  executable = none;
  args_json = none;
  git_commit = none;
  git_path = none;
}

abbrev no_json : Text → Option Value
no_json s = none

abbrev sample : SourceDescriptor
sample = file (codes "docs") (codes "a/b.md")

made : descriptor no_json given (some (codes "a/b.md")) false ≡ ok (some sample)
unfolding descriptor file_descriptor reject_command_fields reject_git_fields any_field checked
    validate contains text_beq
made = refl

portable : validate_portable sample ≡ ok tt
unfolding validate_portable validate validate_shared_path segments has_parent leads_current
    starts_with contains any text_beq
portable = refl

validate_portable-walk_down_example :
    (starts_with (codes "/") (codes "a/b.md") ≡ false)
    × (is_some (walk_down 0 (segments (codes "a/b.md"))) ≡ true)
validate_portable-walk_down_example =
    validate_portable-walk_down sample (codes "docs") (codes "a/b.md") [] portable (inl refl)
