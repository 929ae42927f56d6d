-- ===== src/Relations/Identity/Names.antt =====
-- References and their texts.
use oh_my_document.Prelude.{
  false, [], Text, text_eq, text_beq, text_beq_iff, some, ok, codes, is_empty_iff, split_once,
  split_once-append, split_once-eq-some, contains, Option-cases, inl, inr, nat_eq, ◌≡◌, ◌≢◌, ◌↔◌,
  refl, arith,
}
use oh_my_document.Relations.Identity.{
  Kind, file, range, peer, audit, note, Ref, kind_name, parse_kind, key, from_str,
}

kind_name-no_colon : (k : Kind) → contains b':' (kind_name k) ≡ false
unfolding kind_name contains
kind_name-no_colon file = refl
kind_name-no_colon range = refl
kind_name-no_colon peer = refl
kind_name-no_colon audit = refl
kind_name-no_colon note = refl

parse_kind-kind_name : (k : Kind) → parse_kind (kind_name k) ≡ some k
unfolding kind_name parse_kind text_beq
parse_kind-kind_name file = refl
parse_kind-kind_name range = refl
parse_kind-kind_name peer = refl
parse_kind-kind_name audit = refl
parse_kind-kind_name note = refl

kind_name-parse_kind : (s : Text) (k : Kind) → parse_kind s ≡ some k → s ≡ kind_name k
unfolding kind_name parse_kind
kind_name-parse_kind s k h = ground (
  arith,
  text_beq_iff s (codes "file"),
  text_beq_iff s (codes "range"),
  text_beq_iff s (codes "peer"),
  text_beq_iff s (codes "audit"),
  text_beq_iff s (codes "note"),
)

-- Parsing accepts just the printed references with a non-empty id, and gives back the reference
-- that was printed.
pub from_str_iff : (s : Text) (r : Ref) → (from_str s ≡ ok r) ↔ ((s ≡ key r) × (r.id ≢ []))
unfolding from_str key
from_str_iff s r = (
  λ h. elim (Option-cases (split_once b':' s)) [
    | inl missing ↦ ground (arith, rw missing at h)
    | inr ((name, id), split) ↦
        let (e, _) = split_once-eq-some b':' s name id split in
        elim (Option-cases (parse_kind name)) [
          | inl other ↦ ground (arith, rw (split, other) at h)
          | inr (k, named) ↦
              ground (
                arith,
                rw (split, named) at h,
                kind_name-parse_kind name k named,
                e,
                is_empty_iff id,
              )
        ]
  ],
  λ (e, n).
      rw
        (
          e,
          split_once-append b':' (kind_name r.kind) r.id (kind_name-no_colon r.kind),
          parse_kind-kind_name r.kind,
        )
        (ground (arith, is_empty_iff r.id)),
)
