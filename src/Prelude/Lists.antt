-- ===== src/Prelude/Lists.antt =====
-- Lists measured and indexed by native numbers, and membership by a Boolean test.
use Prim.Native.Nat.add
use Prim.Native.Nat.{ℕ, zero, suc, ◌+◌, ◌-◌, ◌≤◌, min}
use mathlib.Core.Path.{◌≡◌, refl, ap}
use mathlib.Core.Logic.{◌↔◌, ◌⊎◌, inl, inr}
use mathlib.Core.Bool.{Bool, true, false, not, ◌&&◌, ◌||◌}
use mathlib.Core.List.{List, [], ◌∷◌, ◌++◌}
use mathlib.Core.Option.{Option, none, some}
use native.Mathlib.Omega.{arith}
use oh_my_document.Prelude.Tests.{Eq, ◌==◌, if◌then◌else◌}

module _ {ℓ} {A : Type ℓ} where
  abbrev pub length : List A → ℕ
  length [] = 0
  length (x ∷ xs) = suc (length xs)

  abbrev pub take : ℕ → List A → List A
  take zero xs = []
  take (suc n) [] = []
  take (suc n) (x ∷ xs) = x ∷ take n xs

  abbrev pub drop : ℕ → List A → List A
  drop zero xs = xs
  drop (suc n) [] = []
  drop (suc n) (x ∷ xs) = drop n xs

  abbrev pub get_elem? : List A → ℕ → Option A
  get_elem? [] i = none
  get_elem? (x ∷ xs) zero = some x
  get_elem? (x ∷ xs) (suc i) = get_elem? xs i

  abbrev pub is_empty : List A → Bool
  is_empty [] = true
  is_empty (x ∷ xs) = false

  -- `iter().all` and `iter().any`.
  unfoldable pub all : (A → Bool) → List A → Bool
  all p [] = true
  all p (x ∷ xs) = p x && all p xs

  unfoldable pub any : (A → Bool) → List A → Bool
  any p [] = false
  any p (x ∷ xs) = p x || any p xs

  -- `Vec::retain`, `Iterator::filter`.
  unfoldable pub retain : (A → Bool) → List A → List A
  retain p [] = []
  retain p (x ∷ xs) = if p x then x ∷ retain p xs else retain p xs

  abbrev pub All {κ} : (A → Type κ) → List A → Type κ
  All P [] = Unit
  All P (x ∷ xs) = P x × All P xs

module _ {ℓ} {A : Type ℓ} where
  pub length-append : (xs ys : List A) → length (xs ++ ys) ≡ length xs + length ys
  length-append [] ys = omega arith
  length-append (x ∷ xs) ys = omega (arith, length-append xs ys)

  pub take-nil : (n : ℕ) → take {A = A} n [] ≡ []
  take-nil zero = refl
  take-nil (suc n) = refl

  pub length-take : (n : ℕ) (xs : List A) → length (take n xs) ≡ min n (length xs)
  length-take zero xs = omega arith
  length-take (suc n) [] = omega arith
  length-take (suc n) (x ∷ xs) = omega (arith, length-take n xs)

  pub length-drop : (n : ℕ) (xs : List A) → length (drop n xs) ≡ length xs - n
  length-drop zero xs = omega arith
  length-drop (suc n) [] = omega arith
  length-drop (suc n) (x ∷ xs) = omega (arith, length-drop n xs)

  pub drop-nil : (n : ℕ) → drop {A = A} n [] ≡ []
  drop-nil zero = refl
  drop-nil (suc n) = refl

  -- A part of the first `l` elements.
  pub take-drop-take :
      (k n l : ℕ) (xs : List A) → k + n ≤ l → take n (drop k (take l xs)) ≡ take n (drop k xs)
  take-drop-take zero zero l xs h = refl
  take-drop-take zero (suc n) zero xs h = absurd (omega arith)
  take-drop-take zero (suc n) (suc l) [] h = refl
  take-drop-take zero (suc n) (suc l) (x ∷ xs) h =
      ap (◌∷◌ x) (take-drop-take zero n l xs (omega arith))
  take-drop-take (suc k) n zero xs h = absurd (omega arith)
  take-drop-take (suc k) n (suc l) [] h = refl
  take-drop-take (suc k) n (suc l) (x ∷ xs) h = take-drop-take k n l xs (omega arith)

  pub take-split : (l n : ℕ) (xs : List A) → take (l + n) xs ≡ take l xs ++ take n (drop l xs)
  take-split zero n xs = rw add.zero
  take-split (suc l) n [] = rw (add.suc, take-nil n)
  take-split (suc l) n (x ∷ xs) = rw add.suc (ap (◌∷◌ x) (take-split l n xs))

  pub drop-drop : (k l : ℕ) (xs : List A) → drop k (drop l xs) ≡ drop (l + k) xs
  drop-drop k zero xs = rw add.zero
  drop-drop k (suc l) [] = rw (add.suc, drop-nil k)
  drop-drop k (suc l) (x ∷ xs) = rw add.suc (drop-drop k l xs)

  pub is_empty_iff : (xs : List A) → (is_empty xs ≡ true) ↔ (xs ≡ [])
  is_empty_iff [] = (λ _. refl, λ _. refl)
  is_empty_iff (x ∷ xs) = ground arith

  pub List-cases : (xs : List A) → (xs ≡ []) ⊎ ((x : A) × (rest : List A) × (xs ≡ x ∷ rest))
  List-cases [] = inl refl
  List-cases (x ∷ xs) = inr (x, xs, refl)

  -- `filter(p)` and `filter(not p)` share the elements out.
  pub length-retain-not :
      (p : A → Bool) (xs : List A)
      → length (retain p xs) + length (retain (λ x. not (p x)) xs) ≡ length xs
  unfolding retain
  length-retain-not p [] = omega arith
  length-retain-not p (x ∷ xs) = ground (arith, length-retain-not p xs)

  pub length-retain-le : (p : A → Bool) (xs : List A) → length (retain p xs) ≤ length xs
  length-retain-le p xs = omega (arith, length-retain-not p xs)

module _ {ℓ} {A : Type ℓ} ⦃e : Eq A⦄ where
  -- `contains`.
  unfoldable pub contains : A → List A → Bool
  contains a [] = false
  contains a (x ∷ xs) = a == x || contains a xs

  pub contains-cons_self : (a : A) (xs : List A) → contains a (a ∷ xs) ≡ true
  unfolding contains
  contains-cons_self a xs = ground (arith, e.same_iff a a)

  pub contains-append :
      (a : A) (xs ys : List A) → contains a (xs ++ ys) ≡ (contains a xs || contains a ys)
  unfolding contains
  contains-append a [] ys = refl
  contains-append a (x ∷ xs) ys = ground (arith, contains-append a xs ys)

  pub contains-retain :
      (p : A → Bool) (a : A) (xs : List A) → contains a (retain p xs) ≡ (contains a xs && p a)
  unfolding contains retain
  contains-retain p a [] = refl
  contains-retain p a (x ∷ xs) =
      ground (arith, contains-retain p a xs, e.same_iff a x, λ (h : a ≡ x). ap p h)

  pub retain-ext :
      (p q : A → Bool) (xs : List A)
      → ((x : A) → contains x xs ≡ true → p x ≡ q x)
      → retain p xs ≡ retain q xs
  unfolding contains retain
  retain-ext p q [] h = refl
  retain-ext p q (x ∷ xs) h =
      ground (arith, h x, e.same_iff x x, retain-ext p q xs (λ y m. h y (ground (arith, m))))

  -- No element twice.
  unfoldable pub is_nodup : List A → Bool
  is_nodup [] = true
  is_nodup (x ∷ xs) = not (contains x xs) && is_nodup xs
