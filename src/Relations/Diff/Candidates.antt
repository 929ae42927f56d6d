-- ===== src/Relations/Diff/Candidates.antt =====
-- src/relations/diff.rs, `locate_byte_candidates`, `locate_candidates`, `ambiguous_placement`: where
-- a fragment occurs in the current content.

use oh_my_document.Prelude.{
  ℕ, zero, suc, ◌+◌, ◌-◌, ◌≤◌, ◌<◌, Bool, true, false, not, ◌&&◌, ◌||◌, List, [], ◌∷◌, ◌≡◌, ◌≢◌,
  refl, Text, length, take, drop, is_empty, ltb, leb, if◌then◌else◌, ◌==◌, text_eq, text_beq,
  nat_eq, starts_with, contains, any, arith, drop-nil, length-drop,
}

-- `windows(n)`, for `n` above zero.
unfoldable pub windows : ℕ → Text → List Text
windows n [] = []
windows n (c ∷ s) =
    let rest = windows n s in if leb n (length (c ∷ s)) then take n (c ∷ s) ∷ rest else []

-- `enumerate().filter_map(...)`.
unfoldable pub matching : Text → ℕ → List Text → List ℕ
matching fragment i [] = []
matching fragment i (w ∷ ws) =
    let rest = matching fragment (i + 1) ws in if w == fragment then i ∷ rest else rest

unfoldable pub locate_byte_candidates : Text → Text → List ℕ
unfolding windows matching
locate_byte_candidates fragment content =
    if is_empty fragment || ltb (length content) (length fragment)
    then []
    else matching fragment 0 (windows (length fragment) content)

-- `match_indices`, with the character index of each match: the search goes on behind a match, so
-- `skip` characters of it are left to pass over.
unfoldable pub match_from : Text → ℕ → ℕ → Text → List ℕ
match_from fragment i skip [] = []
match_from fragment i (suc skip) (c ∷ s) = match_from fragment (i + 1) skip s
match_from fragment i zero (c ∷ s) =
    let found = i ∷ match_from fragment (i + 1) (length fragment - 1) s in
    let rest = match_from fragment (i + 1) 0 s in
    if starts_with fragment (c ∷ s) then found else rest

unfoldable pub locate_candidates : Text → Text → List ℕ
unfolding match_from
locate_candidates fragment content =
    if is_empty fragment then [] else match_from fragment 0 0 content

unfoldable pub ambiguous_placement : Text → Text → Bool
ambiguous_placement fragment content = ltb 1 (length (locate_candidates fragment content))

starts_with-take :
    (f s : Text) → starts_with f s ≡ (leb (length f) (length s) && take (length f) s == f)
unfolding starts_with text_beq
starts_with-take [] [] = refl
starts_with-take [] (c ∷ s) = ground arith
starts_with-take (x ∷ f) [] = ground arith
starts_with-take (x ∷ f) (c ∷ s) = ground (arith, starts_with-take f s)

matching-below :
    (f : Text) (i p : ℕ) (ws : List Text) → p < i → contains p (matching f i ws) ≡ false
unfolding contains matching
matching-below f i p [] h = refl
matching-below f i p (w ∷ ws) h = ground (arith, matching-below f (i + 1) p ws)

matching-windows_short :
    (f s : Text) (i p : ℕ)
    → length s < length f
    → contains p (matching f i (windows (length f) s)) ≡ false
unfolding contains matching windows
matching-windows_short f [] i p h = refl
matching-windows_short f (c ∷ s) i p h = ground arith

starts_with-drop_short :
    (f s : Text) (k : ℕ) → length s < length f → starts_with f (drop k s) ≡ false
starts_with-drop_short f s k h = ground (arith, starts_with-take f (drop k s), length-drop k s)

matching-windows :
    (f s : Text) (i k p : ℕ)
    → 0 < length f
    → p ≡ i + k
    → contains p (matching f i (windows (length f) s)) ≡ starts_with f (drop k s)
unfolding contains matching windows
matching-windows f [] i k p h e = rw (drop-nil k) (ground (arith, starts_with-take f []))
matching-windows f (c ∷ s) i zero p h e =
    ground (arith, starts_with-take f (c ∷ s), matching-below f (i + 1) p (windows (length f) s))
matching-windows f (c ∷ s) i (suc k) p h e =
    ground (arith, matching-windows f s (i + 1) k p h, starts_with-drop_short f (c ∷ s) (suc k))

-- The byte candidates are exactly the positions at which a nonempty fragment occurs, overlapping
-- occurrences included.
pub locate_byte_candidates_lem :
    (fragment content : Text) (i : ℕ)
    → contains i (locate_byte_candidates fragment content)
      ≡ (not (is_empty fragment) && starts_with fragment (drop i content))
unfolding locate_byte_candidates contains
locate_byte_candidates_lem [] content i = refl
locate_byte_candidates_lem (x ∷ f) content i =
    ground (arith, matching-windows (x ∷ f) content 0 i i, starts_with-drop_short (x ∷ f) content i)

match_from-below : (f s : Text) (i skip p : ℕ) → p < i → contains p (match_from f i skip s) ≡ false
unfolding contains match_from
match_from-below f [] i skip p h = refl
match_from-below f (c ∷ s) i (suc skip) p h = match_from-below f s (i + 1) skip p (omega arith)
match_from-below f (c ∷ s) i zero p h =
    ground (arith, match_from-below f s (i + 1) (length f - 1) p, match_from-below f s (i + 1) 0 p)

match_from_sound :
    (f s : Text) (i skip k p : ℕ)
    → p ≡ i + k
    → contains p (match_from f i skip s) ≡ true
    → starts_with f (drop k s) ≡ true
unfolding contains match_from
match_from_sound f [] i skip k p e h = cc
match_from_sound f (c ∷ s) i (suc skip) zero p e h =
    ground (arith, match_from-below f s (i + 1) skip p)
match_from_sound f (c ∷ s) i (suc skip) (suc k) p e h =
    match_from_sound f s (i + 1) skip k p (omega arith) h
match_from_sound f (c ∷ s) i zero zero p e h =
    ground (arith, match_from-below f s (i + 1) (length f - 1) p, match_from-below f s (i + 1) 0 p)
match_from_sound f (c ∷ s) i zero (suc k) p e h =
    ground
      (arith, match_from_sound f s (i + 1) (length f - 1) k p, match_from_sound f s (i + 1) 0 k p)

-- A reported place at which the fragment covers position `p`.
abbrev pub covers_place : Text → ℕ → List ℕ → Bool
covers_place f p places = any (λ q. leb q p && ltb p (q + length f)) places

match_from_complete :
    (f s : Text) (i skip k p : ℕ)
    → 0 < length f
    → p ≡ i + k
    → skip ≤ k
    → starts_with f (drop k s) ≡ true
    → covers_place f p (match_from f i skip s) ≡ true
unfolding any match_from
match_from_complete f [] i skip k p n e l h = absurd (ground (arith, starts_with-drop_short f [] k))
match_from_complete f (c ∷ s) i (suc skip) zero p n e l h = absurd (omega arith)
match_from_complete f (c ∷ s) i (suc skip) (suc k) p n e l h =
    match_from_complete f s (i + 1) skip k p n (omega arith) (omega arith) h
match_from_complete f (c ∷ s) i zero zero p n e l h = ground arith
match_from_complete f (c ∷ s) i zero (suc k) p n e l h = ground (
  arith,
  match_from_complete f s (i + 1) (length f - 1) k p,
  match_from_complete f s (i + 1) 0 k p,
)

-- Every text candidate is an occurrence of the fragment, and every occurrence is a candidate or
-- overlaps a candidate that starts before it: an overlapping occurrence itself is not reported.
pub locate_candidates_lem :
    (fragment content : Text) (i : ℕ)
    → fragment ≢ []
    → (contains i (locate_candidates fragment content) ≡ true
        → starts_with fragment (drop i content) ≡ true)
      × (starts_with fragment (drop i content) ≡ true
          → covers_place fragment i (locate_candidates fragment content) ≡ true)
unfolding locate_candidates
locate_candidates_lem [] content i n = absurd (n refl)
locate_candidates_lem (x ∷ f) content i n = (
  match_from_sound (x ∷ f) content 0 0 i i (omega arith),
  match_from_complete (x ∷ f) content 0 0 i i (omega arith) (omega arith) (omega arith),
)

-- A doubled character occurs twice in a tripled one: the byte search reports both places, the text
-- search the first alone, so the placement does not count as ambiguous.
pub overlapping_places :
    (c : ℕ)
    → (locate_byte_candidates (c ∷ c ∷ []) (c ∷ c ∷ c ∷ []) ≡ 0 ∷ 1 ∷ [])
      × (locate_candidates (c ∷ c ∷ []) (c ∷ c ∷ c ∷ []) ≡ 0 ∷ [])
      × (ambiguous_placement (c ∷ c ∷ []) (c ∷ c ∷ c ∷ []) ≡ false)
unfolding locate_byte_candidates locate_candidates ambiguous_placement starts_with text_beq
overlapping_places c = (ground arith, ground arith, ground arith)
