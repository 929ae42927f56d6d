-- ===== src/Prelude/Maps.antt =====
-- `BTreeMap` and `BTreeSet` with text keys: lists in the order in which they are iterated.
use oh_my_document.Prelude.Tests.{◌==◌, if◌then◌else◌, is_some}
use oh_my_document.Prelude.Texts.{Text, text_eq, text_beq_iff, text_ltb}
use oh_my_document.Prelude.Lists.{contains, All}
use mathlib.Core.Path.{◌≡◌, refl}
use oh_my_document.Prelude.Tests.{Bool-cases}
use mathlib.Core.Logic.{inl, inr}
use mathlib.Core.Bool.{Bool, true, ◌||◌}
use mathlib.Core.List.{List, [], ◌∷◌}
use mathlib.Core.Option.{Option, none, some}
use native.Mathlib.Omega.{arith}

abbrev pub Map {ℓ} : Type ℓ → Type ℓ
Map V = List (Text × V)

abbrev pub TextSet : Type 0
TextSet = List Text

module _ {ℓ} {V : Type ℓ} where
  -- `get`.
  unfoldable pub lookup : Text → Map V → Option V
  lookup k [] = none
  lookup k ((j, v) ∷ m) = if j == k then some v else lookup k m

  -- `contains_key`.
  unfoldable pub contains_key : Text → Map V → Bool
  unfolding lookup
  contains_key k m = is_some (lookup k m)

  -- `insert`: the entry goes to its place in the order, and replaces one with the same key.
  unfoldable pub insert : Text → V → Map V → Map V
  insert k v [] = (k, v) ∷ []
  insert k v ((j, w) ∷ m) =
      let later = (j, w) ∷ insert k v m in
      if j == k then (k, v) ∷ m else if text_ltb k j then (k, v) ∷ (j, w) ∷ m else later

  -- `remove`.
  unfoldable pub remove : Text → Map V → Map V
  remove k [] = []
  remove k ((j, v) ∷ m) = let rest = remove k m in if j == k then rest else (j, v) ∷ rest

  -- `keys`.
  unfoldable pub keys : Map V → List Text
  keys [] = []
  keys ((k, v) ∷ m) = k ∷ keys m

  pub lookup-insert :
      (key other : Text) (new : V) (map : Map V)
      → lookup other (insert key new map) ≡ (if key == other then some new else lookup other map)
  unfolding lookup insert
  lookup-insert key other new [] = refl
  lookup-insert key other new ((first, old) ∷ map) =
      let rest : lookup other (insert key new map)
          ≡ (if key == other then some new else lookup other map) =
        lookup-insert key other new map in
      ground (arith, rest, text_beq_iff key other, text_beq_iff first key, text_beq_iff first other)

  pub lookup-remove :
      (k j : Text) (m : Map V) → lookup j (remove k m) ≡ (if k == j then none else lookup j m)
  unfolding lookup remove
  lookup-remove k j [] = ground arith
  lookup-remove k j ((i, w) ∷ m) =
      ground (arith, text_beq_iff k j, text_beq_iff i k, text_beq_iff i j, lookup-remove k j m)

  pub contains-keys : (k : Text) (m : Map V) → contains k (keys m) ≡ contains_key k m
  unfolding contains keys contains_key
  contains-keys k [] = refl
  contains-keys k ((j, v) ∷ m) =
      ground (arith, text_beq_iff j k, text_beq_iff k j, contains-keys k m)

-- `BTreeSet::insert`.
unfoldable pub insert_key : Text → TextSet → TextSet
insert_key x [] = x ∷ []
insert_key x (y ∷ ys) =
    let later = y ∷ insert_key x ys in
    if x == y then y ∷ ys else if text_ltb x y then x ∷ y ∷ ys else later

-- `sort` and then `dedup`.
unfoldable pub sort_dedup : List Text → TextSet
sort_dedup [] = []
sort_dedup (x ∷ xs) = insert_key x (sort_dedup xs)

pub contains-insert_key :
    (k x : Text) (xs : TextSet) → contains k (insert_key x xs) ≡ (k == x || contains k xs)
unfolding insert_key contains
contains-insert_key k x [] = refl
contains-insert_key k x (y ∷ ys) =
    ground (arith, text_beq_iff x y, text_beq_iff k x, text_beq_iff k y, contains-insert_key k x ys)

pub contains-sort_dedup : (k : Text) (xs : List Text) → contains k (sort_dedup xs) ≡ contains k xs
unfolding sort_dedup contains
contains-sort_dedup k [] = refl
contains-sort_dedup k (x ∷ xs) =
    ground (arith, contains-insert_key k x (sort_dedup xs), contains-sort_dedup k xs)

-- Copies of one key become that key.
pub sort_dedup-copies :
    (r x : Text) (xs : List Text)
    → ((k : Text) → contains k (x ∷ xs) ≡ true → k ≡ r)
    → sort_dedup (x ∷ xs) ≡ r ∷ []
unfolding sort_dedup insert_key contains
sort_dedup-copies r x [] h = ground (arith, text_beq_iff x x, h x)
sort_dedup-copies r x (y ∷ xs) h =
    let copies : sort_dedup (y ∷ xs) ≡ r ∷ [] =
      sort_dedup-copies r y xs (λ k m. h k (ground (arith, m))) in
    rw copies (ground (arith, text_beq_iff x x, h x, text_beq_iff x r))

module _ {ℓ} {V : Type ℓ} where
  pub All-insert {κ} :
      (P : Text × V → Type κ) (key : Text) (value : V) (map : Map V)
      → P (key, value)
      → All P map
      → All P (insert key value map)
  unfolding insert
  All-insert P key value [] new old = (new, old)
  All-insert P key value ((other, w) ∷ map) new (first, rest) = elim (Bool-cases (other == key)) [
    | inl same ↦ rw same (new, rest)
    | inr differ ↦ elim (Bool-cases (text_ltb key other)) [
      | inl before ↦ rw (differ, before) (new, (first, rest))
      | inr after ↦ rw (differ, after) (first, All-insert P key value map new rest)
    ]
  ]

  pub All-map {κ} :
      (P Q : Text × V → Type κ) (map : Map V)
      → ((entry : Text × V) → P entry → Q entry)
      → All P map
      → All Q map
  All-map P Q [] f all = all
  All-map P Q (entry ∷ map) f (first, rest) = (f entry first, All-map P Q map f rest)

-- The keys of maps that get the same entries.
pub keys-insert {ℓ κ} :
    {V : Type ℓ} {W : Type κ} (key : Text) (v : V) (w : W) (map : Map V) (other : Map W)
    → keys map ≡ keys other
    → keys (insert key v map) ≡ keys (insert key w other)
unfolding insert keys
keys-insert key v w [] [] same = refl
keys-insert key v w [] ((k, b) ∷ other) same = absurd (ground (arith, same))
keys-insert key v w ((j, a) ∷ map) [] same = absurd (ground (arith, same))
keys-insert key v w ((j, a) ∷ map) ((k, b) ∷ other) same =
    let head : j ≡ k = ground (arith, same) in
    let tail : keys map ≡ keys other = ground (arith, same) in
    let rest = keys-insert key v w map other tail in ground (arith, head, tail, rest)

pub ruleset map_laws = (lookup-insert, lookup-remove)
