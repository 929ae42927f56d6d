-- ===== src/Relations/Diff/Script.antt =====
-- What the crate `similar` promises of the operations it returns: they turn the old sequence into
-- the new one, piece by piece.
use oh_my_document.Prelude.{
  ℕ, ◌+◌, ◌≤◌, ◌<◌, List, [], ◌∷◌, ◌≡◌, ◌⊎◌, length, take, drop, arith, length-drop,
}
use oh_my_document.Relations.Diff.{DiffOp, equal, delete, insertion, replace}

-- The operation is one of the list.
abbrev pub Has : DiffOp → List DiffOp → Type 0
Has op [] = ⊥
Has op (x ∷ ops) = (x ≡ op) ⊎ Has op ops

module _ {A : Type 0} where
  -- From index `o` of the old and `n` of the new sequence, what is left of both.
  abbrev pub IsScript : List DiffOp → ℕ → ℕ → List A → List A → Type 0
  IsScript [] o n old new = (old ≡ []) × (new ≡ [])
  IsScript (equal i j l ∷ ops) o n old new =
      (i ≡ o)
      × (j ≡ n)
      × (l ≤ length old)
      × (l ≤ length new)
      × (take l old ≡ take l new)
      × IsScript ops (o + l) (n + l) (drop l old) (drop l new)
  IsScript (delete i l j ∷ ops) o n old new =
      (i ≡ o) × (j ≡ n) × (0 < l) × (l ≤ length old) × IsScript ops (o + l) n (drop l old) new
  IsScript (insertion i j m ∷ ops) o n old new =
      (i ≡ o) × (j ≡ n) × (0 < m) × (m ≤ length new) × IsScript ops o (n + m) old (drop m new)
  IsScript (replace i l j m ∷ ops) o n old new =
      (i ≡ o)
      × (j ≡ n)
      × (0 < l)
      × (0 < m)
      × (l ≤ length old)
      × (m ≤ length new)
      × IsScript ops (o + l) (n + m) (drop l old) (drop m new)

  -- An unchanged block lies behind the indices at which the script starts, and within the texts.
  pub Has-bounds :
      (ops : List DiffOp) (o n i j l : ℕ) (old new : List A)
      → IsScript ops o n old new
      → Has (equal i j l) ops
      → (o ≤ i) × (n ≤ j) × (i + l ≤ o + length old) × (j + l ≤ n + length new)
  Has-bounds [] o n i j l old new s h = absurd h
  Has-bounds (equal i' j' l' ∷ ops) o n i j l old new s h = ground (
    arith,
    Has-bounds ops (o + l') (n + l') i j l (drop l' old) (drop l' new) s.5,
    length-drop l' old,
    length-drop l' new,
  )
  Has-bounds (delete i' l' j' ∷ ops) o n i j l old new s h =
      ground (arith, Has-bounds ops (o + l') n i j l (drop l' old) new s.4, length-drop l' old)
  Has-bounds (insertion i' j' m ∷ ops) o n i j l old new s h =
      ground (arith, Has-bounds ops o (n + m) i j l old (drop m new) s.4, length-drop m new)
  Has-bounds (replace i' l' j' m ∷ ops) o n i j l old new s h = ground (
    arith,
    Has-bounds ops (o + l') (n + m) i j l (drop l' old) (drop m new) s.6,
    length-drop l' old,
    length-drop m new,
  )
