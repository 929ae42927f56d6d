-- ===== src/Sources/Scope/Included.antt =====
-- src/sources/scope.rs, `glob_match` and `included`: a path against the patterns of a scope.
use oh_my_document.Prelude.{
  Bool, true, false, not, ◌&&◌, ◌||◌, List, [], ◌∷◌, ◌++◌, map, Text, text_eq, nat_eq, Option, none,
  some, nat_beq, strip_prefix, starts_with, ◌==◌, if◌then◌else◌, unwrap_or, length, codes, any, ◌≡◌,
  refl, arith,
}
use oh_my_document.Sources.Reference.Paths.{segments}
use oh_my_document.Sources.Scope.{seg_match}

-- `strip_suffix`.
unfoldable pub strip_suffix : Text → Text → Option Text
strip_suffix suffix [] = if suffix == [] then some [] else none
strip_suffix suffix (c ∷ s) =
    let rest = strip_suffix suffix s in
    if suffix == c ∷ s then some [] else elim rest [ none ↦ none | some p ↦ some (c ∷ p) ]

-- The match always ends, so that the default does not matter.
unfoldable pub seg_matches : Text → Text → Bool
seg_matches p s = unwrap_or (seg_match p s) false

-- `sn.last().copied().unwrap_or("")`.
unfoldable pub last_segment : List Text → Text
last_segment [] = []
last_segment (s ∷ []) = s
last_segment (s ∷ t ∷ rest) = last_segment (t ∷ rest)

-- `zip` and `all`.
unfoldable pub all_match : List Text → List Text → Bool
all_match [] sn = true
all_match (p ∷ pn) [] = true
all_match (p ∷ pn) (s ∷ sn) = seg_matches p s && all_match pn sn

unfoldable pub glob_match : Text → Text → Bool
glob_match pat s = elim (strip_suffix (codes "/**") pat) [
  | some prefix ↦ s == prefix || starts_with (prefix ++ codes "/") s
  | none ↦
      if not (length (segments pat) == length (segments s))
      then length (segments pat) == 1 && seg_matches pat (last_segment (segments s))
      else all_match (segments pat) (segments s)
]

-- `!`, and the pattern without it.
unfoldable pub negated : Text → Bool × Text
negated pat = elim (strip_prefix (codes "!") pat) [ none ↦ (false, pat) | some p ↦ (true, p) ]

-- The part of the loop's body that finds whether a pattern speaks about the path.
unfoldable pub applies : Text → Bool → Text → Bool
applies s is_dir pat =
    let bare = (negated pat).1 in
    let (dir_only, p) : Bool × Text = elim (strip_suffix (codes "/") bare) [
      | none ↦ (false, bare)
      | some q ↦ (true, q)
    ] in
    if dir_only && not is_dir
    then false
    else glob_match p s || (glob_match (p ++ codes "/**") s || starts_with (p ++ codes "/") s)

unfoldable pub included_from : Bool → Text → Bool → List Text → Bool
included_from inc s is_dir [] = inc
included_from inc s is_dir (pat ∷ patterns) =
    included_from (if applies s is_dir pat then (negated pat).0 else inc) s is_dir patterns

-- `to_string_lossy().replace('\\', "/")`; the path's text is given.
unfoldable pub forward : Text → Text
forward rel = map (λ c. if nat_beq c b'\\' then b'/' else c) rel

unfoldable pub included : Text → Bool → List Text → Bool
included rel is_dir patterns = included_from true (forward rel) is_dir patterns

included_from-silent :
    (inc : Bool) (s : Text) (is_dir : Bool) (patterns : List Text)
    → any (applies s is_dir) patterns ≡ false
    → included_from inc s is_dir patterns ≡ inc
unfolding included_from any
included_from-silent inc s is_dir [] h = refl
included_from-silent inc s is_dir (pat ∷ patterns) h =
    let quiet : applies s is_dir pat ≡ false = ground (arith, h) in
    rw quiet (included_from-silent inc s is_dir patterns (ground (arith, h)))

included_from-last :
    (inc : Bool) (s : Text) (is_dir : Bool) (before : List Text) (pat : Text) (behind : List Text)
    → any (applies s is_dir) behind ≡ false
    → included_from inc s is_dir (before ++ pat ∷ behind)
      ≡ (if applies s is_dir pat then (negated pat).0 else included_from inc s is_dir before)
unfolding included_from
included_from-last inc s is_dir [] pat behind silent = included_from-silent _ s is_dir behind silent
included_from-last inc s is_dir (p ∷ before) pat behind silent =
    included_from-last (if applies s is_dir p then (negated p).0 else inc) s is_dir before pat
      behind silent

-- The last pattern that speaks about a path decides: where no pattern behind it does, the path is
-- in scope just when that pattern is negated. Patterns that say nothing about a path change
-- nothing.
pub included_lem :
    (rel : Text) (is_dir : Bool) (before : List Text) (pat : Text) (behind : List Text)
    → any (applies (forward rel) is_dir) behind ≡ false
    → included rel is_dir (before ++ pat ∷ behind)
      ≡ (if applies (forward rel) is_dir pat then (negated pat).0 else included rel is_dir before)
unfolding included
included_lem rel is_dir before pat behind silent =
    included_from-last true (forward rel) is_dir before pat behind silent
