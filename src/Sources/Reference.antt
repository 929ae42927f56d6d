-- ===== src/Sources/Reference.antt =====
-- src/sources/reference.rs: source descriptors, and the command-line fields they are made of.
pub mod Paths
mod Closed
mod Tests
use oh_my_document.Prelude.{
  is_hexdigit, ℕ, Bool, true, false, not, ◌&&◌, ◌||◌, List, [], ◌∷◌, ◌++◌, length, all, any,
  contains, Text, text_eq, nat_eq, Option, none, some, is_some, is_none, or_option, unwrap_or,
  codes, Result, ok, err, ◌>>=◌, ◌>>◌, ok_or, map_err, refuse_if, is_empty, if◌then◌else◌, ◌==◌,
  leb,
}
use oh_my_document.Records.Json.{Value, Items, nil, cons, array, as_str}
use oh_my_document.Sources.{SourceError, invalid}

pub data SourceDescriptor : Type 0 where
  file : (project path : Text) → SourceDescriptor
  command : (executable : Text) → (args : List Text) → SourceDescriptor
  git : (project commit path : Text) → SourceDescriptor

unfoldable pub kind : SourceDescriptor → Text
kind (file project path) = codes "file"
kind (command executable args) = codes "command"
kind (git project commit path) = codes "git"

-- `matches!(commit.len(), 40 | 64)` and the test of its bytes; an id with a character outside
-- ASCII fails the second, so the length is that of the characters here.
unfoldable pub is_object_id : Text → Bool
unfolding is_hexdigit
is_object_id commit = (length commit == 40 || length commit == 64) && all is_hexdigit commit

unfoldable pub validate : SourceDescriptor → Result SourceError (Unit {0})
validate (file project path) =
    refuse_if (is_empty project || (is_empty path || contains 0 path))
      (invalid (codes "file source requires non-empty project and path"))
validate (command executable args) =
    refuse_if (is_empty executable || (contains 0 executable || any (contains 0) args))
      (invalid (codes "command source executable/args contain an invalid empty or NUL value"))
validate (git project commit path) =
    refuse_if
      (is_empty project || (is_empty path || (contains 0 path || not (is_object_id commit))))
      (invalid (codes "Git source requires project, literal path, and complete object id"))

-- The optional fields of the command line.
pub record SourceFields : Type 0 where
  pub source_type : Option Text
  pub source_project : Option Text
  pub source_path : Option Text
  pub executable : Option Text
  pub args_json : Option Text
  pub git_commit : Option Text
  pub git_path : Option Text

unfoldable pub any_field : SourceFields → Bool
any_field f =
    is_some f.source_type
    || (is_some f.source_project
        || (is_some f.source_path
            || (is_some f.executable
                || (is_some f.args_json || (is_some f.git_commit || is_some f.git_path)))))

unfoldable pub reject_command_fields : SourceFields → Text → Result SourceError (Unit {0})
reject_command_fields f kind =
    refuse_if (is_some f.executable || is_some f.args_json)
      (invalid (kind ++ codes " source does not accept --executable or --args-json"))

unfoldable pub reject_git_fields : SourceFields → Text → Result SourceError (Unit {0})
reject_git_fields f kind =
    refuse_if (is_some f.git_commit || is_some f.git_path)
      (invalid (kind ++ codes " source does not accept --git-commit or --git-path"))

-- `filter(|value| !value.is_empty())`.
unfoldable pub nonempty : Option Text → Option Text
nonempty none = none
nonempty (some s) = if is_empty s then none else some s

-- `descriptor.validate()?; Ok(Some(descriptor))`.
unfoldable pub checked : SourceDescriptor → Result SourceError (Option SourceDescriptor)
checked d = validate d >>= λ _. ok (some d)

unfoldable pub strings_of : Items → Result SourceError (List Text)
strings_of nil = ok []
strings_of (cons v items) =
    ok_or (as_str v) (invalid (codes "--args-json must contain strings only")) >>= λ s.
    strings_of items >>= λ rest. ok (s ∷ rest)

unfoldable pub items_of : Value → Option Items
items_of (array items) = some items
items_of _ = none

-- `parse_args_json` of src/sources/command.rs: `from_str` is the parser of `serde_json`.
unfoldable pub parse_args_json : (Text → Option Value) → Text → Result SourceError (List Text)
unfolding strings_of items_of
parse_args_json from_str raw =
    ok_or (from_str raw) (invalid (codes "--args-json must be a JSON string array")) >>= λ arr.
    ok_or (items_of arr) (invalid (codes "--args-json must be a JSON string array")) >>= λ items.
    strings_of items

unfoldable pub file_descriptor :
    SourceFields → Option Text → Result SourceError (Option SourceDescriptor)
unfolding checked
file_descriptor f default_file_path = do
  reject_command_fields f (codes "file")
  reject_git_fields f (codes "file")
  path ←
      ok_or (or_option f.source_path default_file_path)
        (invalid (codes "file source requires --source-path"))
  refuse_if (is_empty path) (invalid (codes "file source path must not be empty"))
  checked (file (unwrap_or f.source_project (codes "root")) path)

unfoldable pub command_descriptor :
    (Text → Option Value) → SourceFields → Result SourceError (Option SourceDescriptor)
unfolding checked nonempty
command_descriptor from_str f = do
  refuse_if (is_some f.source_project || is_some f.source_path)
      (invalid (codes "command source does not accept --source-project or --source-path"))
  reject_git_fields f (codes "command")
  executable ←
      ok_or (nonempty f.executable) (invalid (codes "command source requires --executable"))
  raw ← ok_or f.args_json (invalid (codes "command source requires --args-json"))
  args ← parse_args_json from_str raw
  checked (command executable args)

unfoldable pub git_descriptor : SourceFields → Result SourceError (Option SourceDescriptor)
unfolding checked nonempty
git_descriptor f = do
  refuse_if (is_some f.source_path)
      (invalid (codes "git source uses --git-path, not --source-path"))
  reject_command_fields f (codes "git")
  commit ← ok_or f.git_commit (invalid (codes "git source requires --git-commit"))
  refuse_if (not (is_object_id commit))
      (invalid (codes "--git-commit must be a complete 40- or 64-hex object id"))
  path ← ok_or (nonempty f.git_path) (invalid (codes "git source requires --git-path"))
  checked (git (unwrap_or f.source_project (codes "root")) commit path)

unfoldable pub missing_type : SourceError
missing_type = invalid (codes "--source-type file|command|git is required")

-- The case without any field.
unfoldable pub default_descriptor :
    Option Text → Bool → Result SourceError (Option SourceDescriptor)
unfolding checked missing_type
default_descriptor default_file_path true = err missing_type
default_descriptor none false = ok none
default_descriptor (some path) false = checked (file (codes "root") path)

unfoldable pub descriptor :
    (Text → Option Value)
    → SourceFields
    → (default_file_path : Option Text) → (require_type : Bool)
    → Result SourceError (Option SourceDescriptor)
unfolding default_descriptor missing_type
descriptor from_str f default_file_path require_type =
    let kind = unwrap_or f.source_type (codes "file") in
    if not (any_field f)
    then default_descriptor default_file_path require_type
    else if require_type && is_none f.source_type
    then err missing_type
    else if kind == codes "file"
    then file_descriptor f default_file_path
    else if kind == codes "command"
    then command_descriptor from_str f
    else if kind == codes "git"
    then git_descriptor f
    else err (invalid (codes "unknown --source-type: " ++ kind))
