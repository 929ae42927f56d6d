-- ===== src/Relations/Diff/Dirtied.antt =====
-- A range that no hunk dirties still stands in the new text.
use native.Mathlib.Decide.{dec_lt}
use oh_my_document.Prelude.{
  ℕ, zero, suc, ◌+◌, ◌-◌, ◌≤◌, ◌<◌, false, List, [], ◌∷◌, ◌≡◌, refl, length, take, drop, arith,
  length-drop, take-drop-take, take-split, drop-drop, ◌++◌, ap₂, any, ap, sym, ◌∙◌,
}
use oh_my_document.Relations.Range.{Range}
use oh_my_document.Relations.Diff.{
  DiffOp, equal, delete, insertion, replace, hunks_from_ops, dirties, dirtied_by,
}
use oh_my_document.Relations.Diff.Script.{IsScript}

module _ {A : Type 0} where
  take-eq-part :
      (k n l : ℕ) (xs ys : List A)
      → take l xs ≡ take l ys
      → k + n ≤ l
      → take n (drop k xs) ≡ take n (drop k ys)
  take-eq-part k n l xs ys e h =
      sym (take-drop-take k n l xs h) ∙ ap (λ zs. take n (drop k zs)) e ∙ take-drop-take k n l ys h

  take-eq-join :
      (l n e : ℕ) (xs ys : List A)
      → e ≡ l + n
      → take l xs ≡ take l ys
      → take n (drop l xs) ≡ take n (drop l ys)
      → take e xs ≡ take e ys
  take-eq-join l n e xs ys h p q = rw h (take-split l n xs ∙ ap₂ ◌++◌ p q ∙ sym (take-split l n ys))

  -- From a place inside the range on: up to the end of the range the texts agree.
  inside :
      (ops : List DiffOp) (o n e : ℕ) (r : Range) (old new : List A)
      → IsScript ops o n old new
      → any (dirties r) (hunks_from_ops ops) ≡ false
      → r.start ≤ o
      → o + e ≡ r.end
      → e ≤ length old
      → take e old ≡ take e new
  unfolding any dirties hunks_from_ops
  inside ops o n zero r old new s d a b c = refl
  inside [] o n (suc e) r old new s d a b c = rw (s.0, s.1)
  inside (equal i j l ∷ ops) o n (suc e) r old new s d a b c = elim (dec_lt l (suc e)) [
    | yes longer ↦ take-eq-join l (suc e - l) (suc e) old new (omega arith) s.4 (
        inside ops (o + l) (n + l) (suc e - l) r (drop l old) (drop l new) s.5 d (omega arith)
          (omega arith) (omega (arith, length-drop l old)))
    | no within ↦ take-eq-part 0 (suc e) l old new s.4 (omega arith)
  ]
  inside (delete i l j ∷ ops) o n (suc e) r old new s d a b c = absurd (ground arith)
  inside (insertion i j m ∷ ops) o n (suc e) r old new s d a b c = absurd (ground arith)
  inside (replace i l j m ∷ ops) o n (suc e) r old new s d a b c = absurd (ground arith)

  -- The same behind `l` characters of the old and `m` of the new text.
  moved :
      (l m k e : ℕ) (old new : List A)
      → l ≤ k
      → (at : ℕ) × (take e (drop at (drop m new)) ≡ take e (drop (k - l) (drop l old)))
      → (at : ℕ) × (take e (drop at new) ≡ take e (drop k old))
  moved l m k e old new h (at, q) =
      let whole : l + (k - l) ≡ k = omega arith in
      (
        m + at,
        ap (take e) (sym (drop-drop at m new))
            ∙ q
            ∙ ap (take e) (drop-drop (k - l) l old ∙ ap (λ x. drop x old) whole),
      )

  -- `k` characters into what is left the range starts.
  found :
      (ops : List DiffOp) (o n k e : ℕ) (r : Range) (old new : List A)
      → IsScript ops o n old new
      → any (dirties r) (hunks_from_ops ops) ≡ false
      → o + k ≡ r.start
      → o + k + e ≡ r.end
      → 0 < e
      → k + e ≤ length old
      → (at : ℕ) × (take e (drop at new) ≡ take e (drop k old))
  unfolding any dirties hunks_from_ops
  found [] o n k e r old new s d a b f c = absurd (omega (arith, ap length s.0))
  found (equal i j l ∷ ops) o n k e r old new s d a b f c =
      let rest = λ (h : l ≤ k).
        found ops (o + l) (n + l) (k - l) e r (drop l old) (drop l new) s.5 d (omega arith)
          (omega arith) f (omega (arith, length-drop l old)) in
      let onward = λ (h : k < l) (g : l < k + e).
        inside ops (o + l) (n + l) (k + e - l) r (drop l old) (drop l new) s.5 d (omega arith)
          (omega arith) (omega (arith, length-drop l old)) in
      elim (dec_lt k l) [
        | no behind ↦ moved l l k e old new (omega arith) (rest (omega arith))
        | yes here ↦ elim (dec_lt l (k + e)) [
          | no within ↦ (k, sym (take-eq-part k e l old new s.4 (omega arith)))
          | yes longer ↦ (
            k,
            sym (
                take-eq-part k e (k + e) old new
                  (take-eq-join l (k + e - l) (k + e) old new (omega arith) s.4
                    (onward here longer))
                  (omega arith)),
          )
        ]
      ]
  found (delete i l j ∷ ops) o n k e r old new s d a b f c =
      let h : l ≤ k = ground arith in
      let clean : any (dirties r) (hunks_from_ops ops) ≡ false = ground arith in
      moved l 0 k e old new h (
        found ops (o + l) n (k - l) e r (drop l old) new s.4 clean (omega arith) (omega arith) f
          (omega (arith, length-drop l old)))
  found (insertion i j m ∷ ops) o n k e r old new s d a b f c =
      let clean : any (dirties r) (hunks_from_ops ops) ≡ false = ground arith in
      moved 0 m k e old new (omega arith) (
        found ops o (n + m) (k - 0) e r old (drop m new) s.4 clean (omega arith) (omega arith) f
          (omega arith))
  found (replace i l j m ∷ ops) o n k e r old new s d a b f c =
      let h : l ≤ k = ground arith in
      let clean : any (dirties r) (hunks_from_ops ops) ≡ false = ground arith in
      moved l m k e old new h (
        found ops (o + l) (n + m) (k - l) e r (drop l old) (drop m new) s.6 clean (omega arith)
          (omega arith) f (omega (arith, length-drop l old)))

-- A nonempty range of the old text that is not dirtied still stands, character by character, in
-- the new text: every edit that touches the range, or inserts text inside it, dirties it.
pub dirtied_by-kept :
    {A : Type 0} (ops : List DiffOp) (r : Range) (old new : List A)
    → IsScript ops 0 0 old new
    → r.start < r.end
    → r.end ≤ length old
    → dirtied_by (hunks_from_ops ops) (r ∷ []) ≡ false ∷ []
    → (at : ℕ) × (take (r.end - r.start) (drop at new) ≡ take (r.end - r.start) (drop r.start old))
unfolding dirtied_by
dirtied_by-kept ops r old new s h k d =
    found ops 0 0 r.start (r.end - r.start) r old new s (ground arith) (omega arith) (omega arith)
      (omega arith) (omega arith)
