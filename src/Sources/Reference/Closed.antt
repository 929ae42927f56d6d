-- ===== src/Sources/Reference/Closed.antt =====
-- Descriptors are closed: the fields of one kind of source, and no others.
use oh_my_document.Prelude.{
  Bool, true, false, ◌&&◌, ◌||◌, Text, text_eq, text_beq_iff, Option, none, some, is_some, is_none,
  or_option, unwrap_or, codes, ok, is_empty, ◌==◌, Bool-cases, Option-cases, Result-cases, inl, inr,
  ◌≡◌, refl, sym, arith,
}
use oh_my_document.Records.Json.{Value}
use oh_my_document.Sources.Reference.{
  SourceDescriptor, file, command, git, kind, validate, SourceFields, any_field, checked, nonempty,
  parse_args_json, reject_command_fields, reject_git_fields, file_descriptor, command_descriptor,
  git_descriptor, default_descriptor, descriptor, is_object_id,
}

-- The fields that a kind of source does not have are absent.
unfoldable pub NoForeign : SourceFields → SourceDescriptor → Type 0
NoForeign f (file project path) =
    (f.executable ≡ none) × (f.args_json ≡ none) × (f.git_commit ≡ none) × (f.git_path ≡ none)
NoForeign f (command executable args) =
    (f.source_project ≡ none) × (f.source_path ≡ none) × (f.git_commit ≡ none) × (f.git_path ≡ none)
NoForeign f (git project commit path) =
    (f.source_path ≡ none) × (f.executable ≡ none) × (f.args_json ≡ none)

unfoldable pub IsClosed : SourceFields → Text → SourceDescriptor → Type 0
unfolding NoForeign
IsClosed f name d = (validate d ≡ ok tt) × (kind d ≡ name) × NoForeign f d

checked-ok : (c d : SourceDescriptor) → checked c ≡ ok (some d) → (validate c ≡ ok tt) × (c ≡ d)
unfolding checked
checked-ok c d h = elim (Result-cases (validate c)) [
  | inr (e, bad) ↦ absurd (ground (arith, rw bad at h))
  | inl (_, good) ↦ (good, ground (arith, rw good at h))
]

file-IsClosed :
    (f : SourceFields) (default_file_path : Option Text) (d : SourceDescriptor)
    → file_descriptor f default_file_path ≡ ok (some d)
    → IsClosed f (codes "file") d
unfolding file_descriptor reject_command_fields reject_git_fields
file-IsClosed f default_file_path d h =
    elim (Bool-cases (is_some f.executable || is_some f.args_json)) [
      | inl bad ↦ absurd (ground (arith, rw bad at h))
      | inr commands ↦ elim (Bool-cases (is_some f.git_commit || is_some f.git_path)) [
        | inl bad ↦ absurd (ground (arith, rw (commands, bad) at h))
        | inr gits ↦ elim (Option-cases (or_option f.source_path default_file_path)) [
          | inl missing ↦ absurd (ground (arith, rw (commands, gits, missing) at h))
          | inr (path, found) ↦ elim (Bool-cases (is_empty path)) [
            | inl bad ↦ absurd (ground (arith, rw (commands, gits, found, bad) at h))
            | inr full ↦
                let (good, same) =
                  checked-ok (file (unwrap_or f.source_project (codes "root")) path) d
                    (rw (commands, gits, found, full) at h) in
                rw (sym same) (
                  unfold IsClosed NoForeign kind in
                  (
                    good,
                    refl,
                    (
                      ground (arith, commands),
                      ground (arith, commands),
                      ground (arith, gits),
                      ground (arith, gits),
                    ),
                  ))
          ]
        ]
      ]
    ]

command-IsClosed :
    (from_str : Text → Option Value) (f : SourceFields) (d : SourceDescriptor)
    → command_descriptor from_str f ≡ ok (some d)
    → IsClosed f (codes "command") d
unfolding command_descriptor reject_git_fields
command-IsClosed from_str f d h =
    elim (Bool-cases (is_some f.source_project || is_some f.source_path)) [
      | inl bad ↦ absurd (ground (arith, rw bad at h))
      | inr files ↦ elim (Bool-cases (is_some f.git_commit || is_some f.git_path)) [
        | inl bad ↦ absurd (ground (arith, rw (files, bad) at h))
        | inr gits ↦ elim (Option-cases (nonempty f.executable)) [
          | inl missing ↦ absurd (ground (arith, rw (files, gits, missing) at h))
          | inr (executable, found) ↦ elim (Option-cases f.args_json) [
            | inl missing ↦ absurd (ground (arith, rw (files, gits, found, missing) at h))
            | inr (raw, given) ↦ elim (Result-cases (parse_args_json from_str raw)) [
              | inr (e, bad) ↦ absurd (ground (arith, rw (files, gits, found, given, bad) at h))
              | inl (args, parsed) ↦
                  let (good, same) =
                    checked-ok (command executable args) d
                      (rw (files, gits, found, given, parsed) at h) in
                  rw (sym same) (
                    unfold IsClosed NoForeign kind in
                    (
                      good,
                      refl,
                      (
                        ground (arith, files),
                        ground (arith, files),
                        ground (arith, gits),
                        ground (arith, gits),
                      ),
                    ))
            ]
          ]
        ]
      ]
    ]

git-IsClosed :
    (f : SourceFields) (d : SourceDescriptor)
    → git_descriptor f ≡ ok (some d)
    → IsClosed f (codes "git") d
unfolding git_descriptor reject_command_fields
git-IsClosed f d h = elim (Bool-cases (is_some f.source_path)) [
  | inl bad ↦ absurd (ground (arith, rw bad at h))
  | inr files ↦ elim (Bool-cases (is_some f.executable || is_some f.args_json)) [
    | inl bad ↦ absurd (ground (arith, rw (files, bad) at h))
    | inr commands ↦ elim (Option-cases f.git_commit) [
      | inl missing ↦ absurd (ground (arith, rw (files, commands, missing) at h))
      | inr (commit, given) ↦ elim (Bool-cases (is_object_id commit)) [
        | inr bad ↦ absurd (ground (arith, rw (files, commands, given, bad) at h))
        | inl whole ↦ elim (Option-cases (nonempty f.git_path)) [
          | inl missing ↦ absurd (ground (arith, rw (files, commands, given, whole, missing) at h))
          | inr (path, found) ↦
              let (good, same) =
                checked-ok (git (unwrap_or f.source_project (codes "root")) commit path) d
                  (rw (files, commands, given, whole, found) at h) in
              rw (sym same) (
                unfold IsClosed NoForeign kind in
                (
                  good,
                  refl,
                  (ground (arith, files), ground (arith, commands), ground (arith, commands)),
                ))
        ]
      ]
    ]
  ]
]

default-IsClosed :
    (f : SourceFields) (default_file_path : Option Text) (require_type : Bool)
    (d : SourceDescriptor)
    → any_field f ≡ false
    → default_descriptor default_file_path require_type ≡ ok (some d)
    → IsClosed f (codes "file") d
unfolding default_descriptor any_field
default-IsClosed f default_file_path true d none_given h = absurd (ground (arith, h))
default-IsClosed f none false d none_given h = absurd (ground (arith, h))
default-IsClosed f (some path) false d none_given h =
    let (good, same) = checked-ok (file (codes "root") path) d h in
    rw (sym same) (
      unfold IsClosed NoForeign kind in
      (
        good,
        refl,
        (
          ground (arith, none_given),
          ground (arith, none_given),
          ground (arith, none_given),
          ground (arith, none_given),
        ),
      ))

-- A descriptor that the fields make is valid, is of the kind that they name, a file where they
-- name none, and no field of another kind was given.
pub descriptor-IsClosed :
    (from_str : Text → Option Value) (f : SourceFields) (default_file_path : Option Text)
    (require_type : Bool) (d : SourceDescriptor)
    → descriptor from_str f default_file_path require_type ≡ ok (some d)
    → IsClosed f (unwrap_or f.source_type (codes "file")) d
unfolding descriptor
descriptor-IsClosed from_str f default_file_path require_type d h =
    let name : Text = unwrap_or f.source_type (codes "file") in
    elim (Bool-cases (any_field f)) [
      | inr none_given ↦
          let named : unwrap_or f.source_type (codes "file") ≡ codes "file" =
            unfold any_field in ground (arith, none_given) in
          rw named
            (default-IsClosed f default_file_path require_type d none_given (rw none_given at h))
      | inl given ↦ elim (Bool-cases (require_type && is_none f.source_type)) [
        | inl bad ↦ absurd (ground (arith, rw (given, bad) at h))
        | inr typed ↦ elim (Bool-cases (name == codes "file")) [
          | inl is_file ↦
              let at : name ≡ codes "file" = (text_beq_iff name (codes "file")).0 is_file in
              rw at (file-IsClosed f default_file_path d (rw (given, typed, is_file) at h))
          | inr no_file ↦ elim (Bool-cases (name == codes "command")) [
            | inl is_command ↦
                let at : name ≡ codes "command" =
                  (text_beq_iff name (codes "command")).0 is_command in
                rw at (command-IsClosed from_str f d (rw (given, typed, no_file, is_command) at h))
            | inr no_command ↦ elim (Bool-cases (name == codes "git")) [
              | inl is_git ↦
                  let at : name ≡ codes "git" = (text_beq_iff name (codes "git")).0 is_git in
                  rw at (git-IsClosed f d (rw (given, typed, no_file, no_command, is_git) at h))
              | inr unknown ↦
                  absurd (ground (arith, rw (given, typed, no_file, no_command, unknown) at h))
            ]
          ]
        ]
      ]
    ]
