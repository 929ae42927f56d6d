-- ===== src/Relations/Atomic/Landing.antt =====
-- An END closes the innermost block; the two decisions on where a reset lands are compared.
use oh_my_document.Prelude.{
  true, false, not, List, [], ◌∷◌, ◌++◌, Text, Option, some, ok, is_empty, inl, inr, sym, ap, ◌≡◌,
  refl, arith,
}
use oh_my_document.Records.Commit.{
  CommitKind, init, commit, clean, unclean, atomic_begin, atomic_end, link, adapt, rename, delete,
  import, remove, reset, scope_adjust, tag, file_verify, audit_init, audit_patch, note_init,
  note_patch,
}
use oh_my_document.Records.Reset
use oh_my_document.Records.Reset.{ResetTargetRecord, is_marker, ResetOutcome}
use oh_my_document.Records.Reset.Landing.{reset-ok}
use oh_my_document.Relations.Atomic.{
  AtomicStack, begin, pop_back, end, is_open, restore_target, landing_of, resolve_reset,
}

pop_back-append : (xs : List Text) (x : Text) → pop_back (xs ++ x ∷ []) ≡ (xs, some x)
unfolding pop_back
pop_back-append [] x = refl
pop_back-append (y ∷ []) x = refl
pop_back-append (y ∷ z ∷ xs) x = rw (pop_back-append (z ∷ xs) x) refl

not_empty : (xs : List Text) (x : Text) → not (is_empty (xs ++ x ∷ [])) ≡ true
not_empty [] x = refl
not_empty (y ∷ xs) x = refl

-- An END closes the block that was begun last, and leaves the others open.
pub end-begin :
    (id : Text) (s : AtomicStack)
    → (end (begin id s) ≡ (s, some id)) × (is_open (begin id s) ≡ true)
unfolding end begin is_open
end-begin id s = (rw (pop_back-append s.open_begins id) refl, not_empty s.open_begins id)

landing_of-ordinary :
    (k : CommitKind) (previous : Text)
    → is_marker k ≡ false
    → landing_of k previous false ≡ restore_target previous
unfolding is_marker landing_of
landing_of-ordinary atomic_begin previous h = absurd (ground (arith, h))
landing_of-ordinary atomic_end previous h = absurd (ground (arith, h))
landing_of-ordinary init previous h = refl
landing_of-ordinary commit previous h = refl
landing_of-ordinary clean previous h = refl
landing_of-ordinary unclean previous h = refl
landing_of-ordinary link previous h = refl
landing_of-ordinary adapt previous h = refl
landing_of-ordinary rename previous h = refl
landing_of-ordinary delete previous h = refl
landing_of-ordinary import previous h = refl
landing_of-ordinary remove previous h = refl
landing_of-ordinary scope_adjust previous h = refl
landing_of-ordinary tag previous h = refl
landing_of-ordinary file_verify previous h = refl
landing_of-ordinary reset previous h = refl
landing_of-ordinary audit_init previous h = refl
landing_of-ordinary audit_patch previous h = refl
landing_of-ordinary note_init previous h = refl
landing_of-ordinary note_patch previous h = refl

-- Where a reset to an ordinary commit is carried out it lands on that commit; the other
-- decision on the same commit, outside any block, restores its predecessor instead.
pub reset-resolve_reset :
    (read : Text → Option ResetTargetRecord) (target : Text) (r : ResetTargetRecord)
    (out : ResetOutcome)
    → read target ≡ some r
    → is_marker r.kind ≡ false
    → Reset.reset target read ≡ ok out
    → (out.actual ≡ target)
      × (resolve_reset r.kind r.previous_id false false ≡ restore_target r.previous_id)
unfolding resolve_reset
reset-resolve_reset read target r out found plain h = elim (reset-ok read target out r found h) [
  | inl (marker, e) ↦ absurd (ground (arith, plain, marker))
  | inr (_, _, _, e) ↦ (ap (λ o. o.actual) (sym e), landing_of-ordinary r.kind r.previous_id plain)
]
