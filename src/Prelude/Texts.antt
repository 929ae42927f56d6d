-- ===== src/Prelude/Texts.antt =====
-- Text as a list of Unicode scalar values. Identifiers and keys of the program are such texts.
use Prim.Native.Nat.{ℕ}
use Prim.Native.Char.{code}
use Prim.Native.String.{String}
use mathlib.Core.Path.{◌≡◌, refl, ap}
use mathlib.Core.Logic.{◌↔◌}
use mathlib.Core.Bool.{Bool, true, false, ◌&&◌, ◌||◌}
use mathlib.Core.List.{List, [], ◌∷◌, ◌++◌, tail}
use mathlib.Core.Option.{Option, none, some}
use native.Mathlib.Omega.{arith}
use oh_my_document.Prelude.Lists.{contains}
use oh_my_document.Prelude.Tests.{Eq, nat_eq, nat_beq, ltb, leb, if◌then◌else◌}

abbrev pub Text : Type 0
Text = List ℕ

abbrev pub codes : String → Text
codes String.[] = []
codes (String.◌∷◌ c s) = code c ∷ codes s

unfoldable pub text_beq : Text → Text → Bool
text_beq [] [] = true
text_beq [] (y ∷ t) = false
text_beq (x ∷ s) [] = false
text_beq (x ∷ s) (y ∷ t) = nat_beq x y && text_beq s t

pub text_beq_iff : (s t : Text) → (text_beq s t ≡ true) ↔ (s ≡ t)
unfolding text_beq
text_beq_iff [] [] = (λ _. refl, λ _. refl)
text_beq_iff [] (y ∷ t) = ground arith
text_beq_iff (x ∷ s) [] = ground arith
text_beq_iff (x ∷ s) (y ∷ t) = ground (arith, text_beq_iff s t)

instance abbrev pub text_eq : Eq Text
text_eq = record { same = text_beq; same_iff = text_beq_iff }

-- The order of `String`: lexicographic. (By bytes of UTF-8 it is the same order.)
unfoldable pub text_ltb : Text → Text → Bool
text_ltb s [] = false
text_ltb [] (y ∷ t) = true
text_ltb (x ∷ s) (y ∷ t) = ltb x y || (nat_beq x y && text_ltb s t)

-- `strip_prefix`.
unfoldable pub strip_prefix : Text → Text → Option Text
strip_prefix [] s = some s
strip_prefix (p ∷ ps) [] = none
strip_prefix (p ∷ ps) (c ∷ s) = if nat_beq p c then strip_prefix ps s else none

-- `starts_with`.
unfoldable pub starts_with : Text → Text → Bool
starts_with [] s = true
starts_with (p ∷ ps) [] = false
starts_with (p ∷ ps) (c ∷ s) = nat_beq p c && starts_with ps s

pub starts_with_iff : (p s : Text) → (starts_with p s ≡ true) ↔ ((r : Text) × (s ≡ p ++ r))
unfolding starts_with
starts_with_iff [] s = (λ _. (s, refl), λ _. refl)
starts_with_iff (p ∷ ps) [] = ground arith
starts_with_iff (p ∷ ps) (c ∷ s) = (
  λ h. let (r, e) = (starts_with_iff ps s).0 (ground arith) in (r, ground arith),
  λ (r, e). ground (arith, (starts_with_iff ps s).1 (r, ap tail e)),
)

-- `split_once` at one character.
unfoldable pub split_once : ℕ → Text → Option (Text × Text)
split_once d [] = none
split_once d (c ∷ s) =
    if nat_beq c d
    then some ([], s)
    else elim (split_once d s) [ none ↦ none | some (a, b) ↦ some (c ∷ a, b) ]

pub strip_prefix_iff : (p s r : Text) → (strip_prefix p s ≡ some r) ↔ (s ≡ p ++ r)
unfolding strip_prefix
strip_prefix_iff [] s r = ground arith
strip_prefix_iff (p ∷ ps) [] r = ground arith
strip_prefix_iff (p ∷ ps) (c ∷ s) r = ground (arith, strip_prefix_iff ps s r)

pub strip_prefix-append : (p s : Text) → strip_prefix p (p ++ s) ≡ some s
strip_prefix-append p s = (strip_prefix_iff p (p ++ s) s).1 refl

pub starts_with-append : (p s : Text) → starts_with p (p ++ s) ≡ true
starts_with-append p s = (starts_with_iff p (p ++ s)).1 (s, refl)

-- The first separator splits: what stands before it holds none.
pub split_once-append :
    (d : ℕ) (a b : Text) → contains d a ≡ false → split_once d (a ++ d ∷ b) ≡ some (a, b)
unfolding split_once contains
split_once-append d [] b h = ground arith
split_once-append d (x ∷ a) b h = ground (arith, split_once-append d a b)

pub split_once-eq-some :
    (d : ℕ) (s a b : Text)
    → split_once d s ≡ some (a, b)
    → (s ≡ a ++ d ∷ b) × (contains d a ≡ false)
unfolding split_once contains
split_once-eq-some d [] a b h = ground arith
split_once-eq-some d (x ∷ s) [] b h = ground arith
split_once-eq-some d (x ∷ s) (y ∷ a) b h = ground (arith, split_once-eq-some d s a b)

-- `is_ascii_hexdigit`.
unfoldable pub is_hexdigit : ℕ → Bool
is_hexdigit c =
    (leb b'0' c && leb c b'9') || (leb b'a' c && leb c b'f') || (leb b'A' c && leb c b'F')
