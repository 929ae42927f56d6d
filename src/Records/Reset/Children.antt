-- ===== src/Records/Reset/Children.antt =====
-- The children of a file that is reset: all of them are restored, or none.
use oh_my_document.Prelude.{
  [], ◌∷◌, ◌++◌, append_assoc, append-nil, All, Text, Option, none, Result, ok, Result-cases,
  Option-cases, inl, inr, ap, sym, ◌∙◌, ◌≡◌, ◌↔◌, arith,
}
use oh_my_document.Prelude.Maps.{Map}
use oh_my_document.Records.Reset.{
  ResetError, ResetBlockMembership, restore_children, file_reset_children_checked,
}

module _ (child_membership : Text → Result ResetError (Option ResetBlockMembership)) where
  abbrev Free : Map Text → Type 0
  Free range_tips = All (λ entry. child_membership entry.1 ≡ ok none) range_tips

  restore_children-Free :
      (range_tips restored : Map Text)
      → Free range_tips
      → restore_children child_membership range_tips restored ≡ ok (restored ++ range_tips)
  unfolding restore_children
  restore_children-Free [] restored h = ap ok (sym (append-nil restored))
  restore_children-Free ((id, tip) ∷ range_tips) restored (free, h) = rw free (
      restore_children-Free range_tips (restored ++ (id, tip) ∷ []) h
      ∙ ap ok (append_assoc restored ((id, tip) ∷ []) range_tips))

  restore_children-ok :
      (range_tips restored out : Map Text)
      → restore_children child_membership range_tips restored ≡ ok out
      → Free range_tips
  unfolding restore_children
  restore_children-ok [] restored out h = tt
  restore_children-ok ((id, tip) ∷ range_tips) restored out h =
      elim (Result-cases (child_membership tip)) [
        | inr (e, bad) ↦ absurd (ground (arith, rw bad at h))
        | inl (membership, found) ↦ elim (Option-cases membership) [
          | inr (m, inside) ↦ absurd (ground (arith, rw (found, inside) at h))
          | inl outside ↦ (
            found ∙ ap ok outside,
            restore_children-ok range_tips (restored ++ (id, tip) ∷ []) out
                (rw (found, outside) at h),
          )
        ]
      ]

  -- A file reset restores its children just when no child is a member of a block, and then it
  -- restores them all, each to its recorded tip.
  pub file_reset_children_checked_iff :
      (range_tips restored : Map Text)
      → (file_reset_children_checked range_tips child_membership ≡ ok restored)
        ↔ (All (λ entry. child_membership entry.1 ≡ ok none) range_tips × (restored ≡ range_tips))
  unfolding file_reset_children_checked
  file_reset_children_checked_iff range_tips restored = (
    λ h.
        let free : Free range_tips = restore_children-ok range_tips [] restored h in
        (free, ground (arith, sym (restore_children-Free range_tips [] free) ∙ h)),
    λ (free, e). restore_children-Free range_tips [] free ∙ ap ok (sym e),
  )
