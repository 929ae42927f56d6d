-- ===== src/Relations/Diff/Mapping.antt =====
-- Where `map_position` and `map_range` take a range that an edit leaves alone.
use oh_my_document.Prelude.{
  ℕ, zero, suc, ◌+◌, ◌-◌, ◌%◌, ◌≤◌, ◌<◌, Bool, true, false, List, [], ◌∷◌, ◌≡◌, ◌≢◌, ◌⊎◌, inl, inr,
  refl, length, drop, arith, length-drop, some, u64_mod,
}
use oh_my_document.Relations.Range.{Range}
use oh_my_document.Relations.Diff.{
  DiffOp, equal, delete, insertion, replace, Hunk, hunks_from_ops, shifted, map_from, map_position,
  map_range,
}
use oh_my_document.Relations.Diff.Script.{Has, IsScript, Has-bounds}

-- No text is deleted or replaced from index `p` on.
abbrev pub NoRemoval : ℕ → List DiffOp → Type 0
NoRemoval p [] = Unit
NoRemoval p (equal i j l ∷ ops) = NoRemoval p ops
NoRemoval p (delete i l j ∷ ops) = (i ≢ p) × NoRemoval p ops
NoRemoval p (insertion i j m ∷ ops) = NoRemoval p ops
NoRemoval p (replace i l j m ∷ ops) = (i ≢ p) × NoRemoval p ops

module _ {A : Type 0} where
  -- Hunks behind the position move nothing.
  map_from-before :
      (ops : List DiffOp) (o n p pos : ℕ) (st : Bool) (old new : List A)
      → IsScript ops o n old new
      → p < o
      → map_from (hunks_from_ops ops) p st pos ≡ pos
  unfolding map_from hunks_from_ops
  map_from-before [] o n p pos st old new s h = refl
  map_from-before (equal i j l ∷ ops) o n p pos st old new s h =
      map_from-before ops (o + l) (n + l) p pos st (drop l old) (drop l new) s.5 (omega arith)
  map_from-before (delete i l j ∷ ops) o n p pos st old new s h = ground arith
  map_from-before (insertion i j m ∷ ops) o n p pos st old new s h = ground arith
  map_from-before (replace i l j m ∷ ops) o n p pos st old new s h = ground arith

  -- An end stays where nothing is removed behind it: what is inserted there is outside the range.
  map_from-end :
      (ops : List DiffOp) (o n p pos : ℕ) (old new : List A)
      → IsScript ops o n old new
      → p ≡ o
      → NoRemoval p ops
      → map_from (hunks_from_ops ops) p false pos ≡ pos
  unfolding map_from hunks_from_ops
  map_from-end [] o n p pos old new s h free = refl
  map_from-end (equal i j zero ∷ ops) o n p pos old new s h free =
      map_from-end ops (o + 0) (n + 0) p pos (drop 0 old) (drop 0 new) s.5 (omega arith) free
  map_from-end (equal i j (suc l) ∷ ops) o n p pos old new s h free =
      map_from-before ops (o + suc l) (n + suc l) p pos false (drop (suc l) old) (drop (suc l) new)
        s.5 (omega arith)
  map_from-end (delete i l j ∷ ops) o n p pos old new s h free = ground arith
  map_from-end (insertion i j m ∷ ops) o n p pos old new s h free = ground arith
  map_from-end (replace i l j m ∷ ops) o n p pos old new s h free = ground arith

  map_from-block_end :
      (ops : List DiffOp) (o n i j l p pos : ℕ) (old new : List A)
      → IsScript ops o n old new
      → Has (equal i j l) ops
      → i < p
      → p ≡ i + l
      → NoRemoval p ops
      → pos + o ≡ p + n
      → p + n + length new < u64_mod
      → map_from (hunks_from_ops ops) p false pos ≡ j + (p - i)
  unfolding map_from hunks_from_ops shifted
  map_from-block_end [] o n i j l p pos old new s h a b free e f = absurd h
  map_from-block_end (equal i' j' l' ∷ ops) o n i j l p pos old new s (inl h) a b free e f =
      ground (arith, map_from-end ops (o + l') (n + l') p pos (drop l' old) (drop l' new) s.5)
  map_from-block_end (equal i' j' l' ∷ ops) o n i j l p pos old new s (inr h) a b free e f =
      map_from-block_end ops (o + l') (n + l') i j l p pos (drop l' old) (drop l' new) s.5 h a b
        free (omega arith) (omega (arith, length-drop l' new))
  map_from-block_end (delete i' l' j' ∷ ops) o n i j l p pos old new s (inl h) a b free e f =
      absurd (cc)
  map_from-block_end (delete i' l' j' ∷ ops) o n i j l p pos old new s (inr h) a b free e f =
      ground (
        arith,
        Has-bounds ops (o + l') n i j l (drop l' old) new s.4 h,
        map_from-block_end ops (o + l') n i j l p ((pos + 0 + u64_mod - l') % u64_mod) (drop l' old)
            new s.4 h a b free.1,
      )
  map_from-block_end (insertion i' j' m ∷ ops) o n i j l p pos old new s (inl h) a b free e f =
      absurd (cc)
  map_from-block_end (insertion i' j' m ∷ ops) o n i j l p pos old new s (inr h) a b free e f =
      ground (
        arith,
        Has-bounds ops o (n + m) i j l old (drop m new) s.4 h,
        length-drop m new,
        map_from-block_end ops o (n + m) i j l p ((pos + m + u64_mod - 0) % u64_mod) old
            (drop m new) s.4 h a b free,
      )
  map_from-block_end (replace i' l' j' m ∷ ops) o n i j l p pos old new s (inl h) a b free e f =
      absurd (cc)
  map_from-block_end (replace i' l' j' m ∷ ops) o n i j l p pos old new s (inr h) a b free e f =
      ground (
        arith,
        Has-bounds ops (o + l') (n + m) i j l (drop l' old) (drop m new) s.6 h,
        length-drop m new,
        map_from-block_end ops (o + l') (n + m) i j l p ((pos + m + u64_mod - l') % u64_mod)
            (drop l' old) (drop m new) s.6 h a b free.1,
      )

  map_from-kept :
      (ops : List DiffOp) (o n i j l p pos : ℕ) (st : Bool) (old new : List A)
      → IsScript ops o n old new
      → Has (equal i j l) ops
      → i ≤ p
      → p < i + l
      → (st ≡ true) ⊎ (i < p)
      → pos + o ≡ p + n
      → p + n + length new < u64_mod
      → map_from (hunks_from_ops ops) p st pos ≡ j + (p - i)
  unfolding map_from hunks_from_ops shifted
  map_from-kept [] o n i j l p pos st old new s h a b c e f = absurd h
  map_from-kept (equal i' j' l' ∷ ops) o n i j l p pos st old new s (inl h) a b c e f =
      ground (arith, map_from-before ops (o + l') (n + l') p pos st (drop l' old) (drop l' new) s.5)
  map_from-kept (equal i' j' l' ∷ ops) o n i j l p pos st old new s (inr h) a b c e f =
      map_from-kept ops (o + l') (n + l') i j l p pos st (drop l' old) (drop l' new) s.5 h a b c
        (omega arith) (omega (arith, length-drop l' new))
  map_from-kept (delete i' l' j' ∷ ops) o n i j l p pos st old new s (inl h) a b c e f = absurd (cc)
  map_from-kept (delete i' l' j' ∷ ops) o n i j l p pos st old new s (inr h) a b c e f = ground (
    arith,
    Has-bounds ops (o + l') n i j l (drop l' old) new s.4 h,
    map_from-kept ops (o + l') n i j l p ((pos + 0 + u64_mod - l') % u64_mod) st (drop l' old) new
        s.4 h a b c,
  )
  map_from-kept (insertion i' j' m ∷ ops) o n i j l p pos st old new s (inl h) a b c e f =
      absurd (cc)
  map_from-kept (insertion i' j' m ∷ ops) o n i j l p pos st old new s (inr h) a b c e f = ground (
    arith,
    Has-bounds ops o (n + m) i j l old (drop m new) s.4 h,
    length-drop m new,
    map_from-kept ops o (n + m) i j l p ((pos + m + u64_mod - 0) % u64_mod) st old (drop m new) s.4
        h a b c,
  )
  map_from-kept (replace i' l' j' m ∷ ops) o n i j l p pos st old new s (inl h) a b c e f =
      absurd (cc)
  map_from-kept (replace i' l' j' m ∷ ops) o n i j l p pos st old new s (inr h) a b c e f = ground (
    arith,
    Has-bounds ops (o + l') (n + m) i j l (drop l' old) (drop m new) s.6 h,
    length-drop m new,
    map_from-kept ops (o + l') (n + m) i j l p ((pos + m + u64_mod - l') % u64_mod) st (drop l' old)
        (drop m new) s.6 h a b c,
  )

  -- A nonempty range inside an unchanged block is mapped to the same characters of the new text:
  -- both ends move by the distance of the block's two places. The range ends before the block does,
  -- or with it where no text is deleted or replaced right behind it.
  pub map_range-kept :
      (ops : List DiffOp) (i j l : ℕ) (r : Range) (old new : List A)
      → IsScript ops 0 0 old new
      → Has (equal i j l) ops
      → i ≤ r.start
      → r.start < r.end
      → (r.end < i + l) ⊎ ((r.end ≡ i + l) × NoRemoval r.end ops)
      → length old + length new < u64_mod
      → map_range (hunks_from_ops ops) r
        ≡ some (record r { start = j + (r.start - i); end = j + (r.end - i) })
  unfolding map_range map_position
  map_range-kept ops i j l r old new s h a b c d =
      let bounds = Has-bounds ops 0 0 i j l old new s h in
      let end : map_from (hunks_from_ops ops) r.end false r.end ≡ j + (r.end - i) = elim c [
        | inl inside ↦
            map_from-kept ops 0 0 i j l r.end r.end false old new s h (omega arith) inside
              (inr (omega arith)) refl (omega (arith, bounds))
        | inr (at, free) ↦
            map_from-block_end ops 0 0 i j l r.end r.end old new s h (omega arith) at free refl
              (omega (arith, bounds))
      ] in
      ground (
        arith,
        bounds,
        end,
        map_from-kept ops 0 0 i j l r.start r.start true old new s h a (omega (arith, c))
            (inl refl),
      )

-- A position in an old extent that a hunk replaces is mapped behind the new extent, counted from
-- the place of the hunk in the old text: a hunk that stands before, and moves everything behind it,
-- has no part in the result.
pub map_position-clamped :
    (before h : Hunk) (hunks : List Hunk) (p : ℕ) (is_start : Bool)
    → before.pos + before.old_len < h.pos
    → h.pos ≤ p
    → p < h.pos + h.old_len
    → map_position (before ∷ h ∷ hunks) p is_start ≡ (h.pos + h.new_len) % u64_mod
unfolding map_position map_from
map_position-clamped before h hunks p is_start a b c = ground arith
