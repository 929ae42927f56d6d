-- ===== src/Relations/Identity/Prefixes.antt =====
-- What the resolution of ids and prefixes finds.
use oh_my_document.Prelude.{
  true, false, ◌&&◌, List, [], ◌∷◌, Text, text_eq, text_beq_iff, ok, contains, contains-retain,
  retain, starts_with, nat_eq, Bool-cases, ◌⊎◌, inl, inr, ap, sym, ◌∙◌, ◌≡◌, ◌↔◌, refl, arith,
}
use oh_my_document.Prelude.Maps.{sort_dedup, sort_dedup-copies, contains-sort_dedup}
use oh_my_document.Records.Store.{Store}
use oh_my_document.Relations.Identity.Ancestry.{pick, resolve_commit_id}

pick_iff : (value id : Text) (xs : List Text) → (pick value xs ≡ ok id) ↔ (xs ≡ id ∷ [])
unfolding pick
pick_iff value id [] = ground arith
pick_iff value id (x ∷ []) = ground arith
pick_iff value id (x ∷ y ∷ xs) = ground arith

one_key_iff :
    (id : Text) (xs : List Text)
    → (sort_dedup xs ≡ id ∷ [])
      ↔ ((contains id xs ≡ true) × ((k : Text) → contains k xs ≡ true → k ≡ id))
unfolding sort_dedup contains
one_key_iff id [] = ground arith
one_key_iff id (x ∷ xs) = (
  λ h.
      let in_one : (k : Text) → contains k (x ∷ xs) ≡ contains k (id ∷ []) =
        λ k. sym (contains-sort_dedup k (x ∷ xs)) ∙ ap (contains k) h in
      (
        in_one id ∙ ground (arith, text_beq_iff id id),
        λ k m. ground (arith, text_beq_iff k id, in_one k, m),
      ),
  λ (m, copies). sort_dedup-copies id x xs copies,
)

-- A value resolves to a retained commit id just when it is that id, or when it is no retained
-- id itself and a prefix of that one alone.
pub resolve_commit_id_iff :
    (s : Store) (value id : Text)
    → (resolve_commit_id s value ≡ ok id) ↔ (
        (contains id s.state.retained ≡ true)
        × ((id ≡ value)
            ⊎ ((contains value s.state.retained ≡ false)
                × (starts_with value id ≡ true)
                × ((k : Text)
                    → contains k s.state.retained ≡ true
                    → starts_with value k ≡ true
                    → k ≡ id))))
unfolding resolve_commit_id
resolve_commit_id_iff s value id =
    let ids : List Text = s.state.retained in
    let kept : (k : Text)
        → contains k (retain (starts_with value) ids) ≡ (contains k ids && starts_with value k) =
      λ k. contains-retain (starts_with value) k ids in
    let (found, back) = pick_iff value id (sort_dedup (retain (starts_with value) ids)) in
    let (alone, only) = one_key_iff id (retain (starts_with value) ids) in
    elim (Bool-cases (contains value ids)) [
      | inl exact ↦ rw exact (
        λ h. let e : value ≡ id = ground (arith, h) in (rw e at exact, inl (sym e)),
        λ (m, either). ground (arith, either),
      )
      | inr prefix ↦ rw prefix (
        λ h.
            let (m, copies) = alone (found h) in
            (
              ground (arith, m, kept id),
              inr (
                refl,
                ground (arith, m, kept id),
                λ k a b. copies k (ground (arith, kept k, a, b)),
              ),
            ),
        λ (m, either). elim either [
          | inl same ↦ absurd (ground (arith, ap (λ k. contains k ids) same))
          | inr (_, starts, single) ↦ back (
              only (
                ground (arith, kept id),
                λ k a. single k (ground (arith, kept k, a)) (ground (arith, kept k, a)),
              ))
        ],
      )
    ]
