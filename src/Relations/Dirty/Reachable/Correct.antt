-- ===== src/Relations/Dirty/Reachable/Correct.antt =====
-- The walk returns exactly the nodes that some chain of dependencies reaches, each once.
use oh_my_document.Prelude.{
  ℕ, zero, suc, ◌+◌, true, false, ◌||◌, List, [], ◌∷◌, ◌++◌, Text, text_eq, text_beq_iff, some,
  contains, contains-append, is_nodup, ◌≡◌, refl, arith, ◌==◌, Bool-cases, inl, inr, subst, sym,
  ◌∙◌,
}
use oh_my_document.Prelude.Maps.{Map, TextSet}
use oh_my_document.Relations.Dirty.Reachable.{targets, push_all, walk, all_deps, reachable_bounded}
use oh_my_document.Relations.Dirty.Reachable.Loop.{reachable_bounded_ends}

pub data Reach (edges : Map TextSet) (start : Text) : Text → Type 0 where
  here : Reach edges start start
  step :
      {u v : Text} → Reach edges start u → contains v (targets edges u) ≡ true → Reach edges start v

contains-push_all :
    (a : Text) (deps : TextSet) (stack : List Text)
    → contains a (push_all deps stack) ≡ (contains a deps || contains a stack)
unfolding push_all contains
contains-push_all a [] stack = refl
contains-push_all a (d ∷ deps) stack = ground (arith, contains-push_all a deps (d ∷ stack))

is_nodup-concat :
    (n : Text) (order : List Text)
    → is_nodup order ≡ true
    → contains n order ≡ false
    → is_nodup (order ++ n ∷ []) ≡ true
unfolding is_nodup contains
is_nodup-concat n [] h k = refl
is_nodup-concat n (x ∷ order) h k = ground (
  arith,
  is_nodup-concat n order,
  contains-append x order (n ∷ []),
  text_beq_iff n x,
  text_beq_iff x n,
)

module _ (edges : Map TextSet) (start : Text) where
  record Inv (stack seen order : List Text) : Type 0 where
    same : (a : Text) → contains a order ≡ contains a seen
    once : is_nodup order ≡ true
    source : (contains start stack || contains start seen) ≡ true
    waiting : (a : Text) → contains a stack ≡ true → Reach edges start a
    sound : (a : Text) → contains a seen ≡ true → Reach edges start a
    closed :
        (u v : Text)
        → contains u seen ≡ true
        → contains v (targets edges u) ≡ true
        → (contains v stack || contains v seen) ≡ true

  Inv-skip :
      (n : Text) (stack seen order : List Text)
      → contains n seen ≡ true
      → Inv (n ∷ stack) seen order
      → Inv stack seen order
  unfolding contains
  Inv-skip n stack seen order old i = record {
    same = i.same;
    once = i.once;
    source = ground (arith, i.source, text_beq_iff start n);
    waiting = λ a m. i.waiting a (ground arith);
    sound = i.sound;
    closed = λ u v m e. ground (arith, i.closed u v m e, text_beq_iff v n);
  }

  Inv-expand :
      (n : Text) (stack seen order : List Text)
      → contains n seen ≡ false
      → Inv (n ∷ stack) seen order
      → Inv (push_all (targets edges n) stack) (n ∷ seen) (order ++ n ∷ [])
  unfolding contains
  Inv-expand n stack seen order new i =
      let reached : Reach edges start n = i.waiting n (ground (arith, text_beq_iff n n)) in
      record {
        same = λ a. ground (arith, contains-append a order (n ∷ []), i.same a);
        once = is_nodup-concat n order i.once (ground (arith, i.same n));
        source = ground (arith, i.source, contains-push_all start (targets edges n) stack);
        waiting = λ a m. elim (Bool-cases (contains a (targets edges n))) [
          | inl t ↦ step reached t
          | inr f ↦ i.waiting a (ground (arith, contains-push_all a (targets edges n) stack))
        ];
        sound = λ a m. elim (Bool-cases (a == n)) [
          | inl e ↦ rw ((text_beq_iff a n).0 e) reached
          | inr f ↦ i.sound a (ground arith)
        ];
        closed = λ u v m e. elim (Bool-cases (u == n)) [
          | inl q ↦
              let at_n =
                subst (λ w. contains v (targets edges w) ≡ true) ((text_beq_iff u n).0 q) e in
              ground (arith, at_n, contains-push_all v (targets edges n) stack)
          | inr f ↦ ground (arith, i.closed u v, contains-push_all v (targets edges n) stack)
        ];
      }

  walk-Inv :
      (fuel : ℕ) (stack seen order result : List Text)
      → Inv stack seen order
      → walk edges fuel stack seen order ≡ some result
      → (final : List Text) × Inv [] final result
  unfolding walk
  walk-Inv fuel [] seen order result i h = (seen, subst (Inv [] seen) (cc) i)
  walk-Inv zero (n ∷ stack) seen order result i h = absurd (cc)
  walk-Inv (suc fuel) (n ∷ stack) seen order result i h = elim (Bool-cases (contains n seen)) [
    | inl old ↦
        walk-Inv fuel stack seen order result (Inv-skip n stack seen order old i)
          (rw (old, walk) at h)
    | inr new ↦
        walk-Inv fuel (push_all (targets edges n) stack) (n ∷ seen) (order ++ n ∷ []) result
          (Inv-expand n stack seen order new i) (rw (new, walk) at h)
  ]

  Inv-start : Inv (start ∷ []) [] []
  unfolding contains is_nodup
  Inv-start = record {
    same = λ a. refl;
    once = refl;
    source = ground (arith, text_beq_iff start start);
    waiting = λ a m. subst (Reach edges start) (ground (arith, text_beq_iff a start)) here;
    sound = λ a m. absurd (cc);
    closed = λ u v m e. cc;
  }

  complete :
      (seen order : List Text)
      → Inv [] seen order
      → {a : Text} → Reach edges start a
      → contains a seen ≡ true
  unfolding contains
  complete seen order i here = i.source
  complete seen order i (step {u} {v} r e) = i.closed u v (complete seen order i r) e

-- The walk ends on every graph, with the nodes that `start` reaches along dependencies, `start`
-- itself included, and no node twice: a cycle adds nothing.
pub reachable_bounded_lem :
    (start : Text) (edges : Map TextSet)
    → (result : List Text) × (reachable_bounded start edges ≡ some result)
      × (is_nodup result ≡ true)
      × ((a : Text) → contains a result ≡ true → Reach edges start a)
      × ((a : Text) → Reach edges start a → contains a result ≡ true)
unfolding reachable_bounded
reachable_bounded_lem start edges =
    let (result, e) = reachable_bounded_ends start edges in
    let (seen, i) =
      walk-Inv edges start (all_deps edges + 1) (start ∷ []) [] [] result (Inv-start edges start)
        e in
    (
      result,
      e,
      i.once,
      λ a m. i.sound a (sym (i.same a) ∙ m),
      λ a r. i.same a ∙ complete edges start seen result i r,
    )
