-- ===== src/Prelude/Equality.antt =====
-- `==` on lists, pairs and options, from that on their parts.
use mathlib.Core.Path.{◌≡◌, refl}
use mathlib.Core.Logic.{◌↔◌}
use mathlib.Core.Bool.{Bool, true, false, ◌&&◌}
use mathlib.Core.List.{List, [], ◌∷◌}
use mathlib.Core.Option.{Option, none, some}
use native.Mathlib.Omega.{arith}
use oh_my_document.Prelude.Tests.{Eq, ◌==◌}
use oh_my_document.Prelude.Texts.{Text, text_eq}
use oh_my_document.Prelude.Maps.{Map}

module _ {ℓ} {A : Type ℓ} ⦃e : Eq A⦄ where
  unfoldable pub list_beq : List A → List A → Bool
  list_beq [] [] = true
  list_beq [] (y ∷ ys) = false
  list_beq (x ∷ xs) [] = false
  list_beq (x ∷ xs) (y ∷ ys) = x == y && list_beq xs ys

  pub list_beq_iff : (xs ys : List A) → (list_beq xs ys ≡ true) ↔ (xs ≡ ys)
  unfolding list_beq
  list_beq_iff [] [] = (λ _. refl, λ _. refl)
  list_beq_iff [] (y ∷ ys) = ground arith
  list_beq_iff (x ∷ xs) [] = ground arith
  list_beq_iff (x ∷ xs) (y ∷ ys) = ground (arith, e.same_iff x y, list_beq_iff xs ys)

  unfoldable pub option_beq : Option A → Option A → Bool
  option_beq none none = true
  option_beq none (some y) = false
  option_beq (some x) none = false
  option_beq (some x) (some y) = x == y

  pub option_beq_iff : (x y : Option A) → (option_beq x y ≡ true) ↔ (x ≡ y)
  unfolding option_beq
  option_beq_iff none none = (λ _. refl, λ _. refl)
  option_beq_iff none (some y) = ground arith
  option_beq_iff (some x) none = ground arith
  option_beq_iff (some x) (some y) = ground (arith, e.same_iff x y)

unfoldable pub entry_beq : Text × Text → Text × Text → Bool
entry_beq (j, v) (k, w) = j == k && v == w

pub entry_beq_iff : (x y : Text × Text) → (entry_beq x y ≡ true) ↔ (x ≡ y)
unfolding entry_beq
entry_beq_iff (j, v) (k, w) = ground (arith, text_eq.same_iff j k, text_eq.same_iff v w)

instance abbrev pub entry_eq : Eq (Text × Text)
entry_eq = record { same = entry_beq; same_iff = entry_beq_iff }

-- `==` on a `BTreeMap<String, String>`.
unfoldable pub map_beq : Map Text → Map Text → Bool
map_beq m n = list_beq m n

pub map_beq_iff : (m n : Map Text) → (map_beq m n ≡ true) ↔ (m ≡ n)
unfolding map_beq
map_beq_iff m n = list_beq_iff m n
