-- ===== src/Sources/Scope/Complete.antt =====
-- `seg_match` finds every match in a text that holds no star.
use oh_my_document.Prelude.{
  ℕ, zero, suc, ◌+◌, ◌*◌, Bool, true, false, [], ◌∷◌, Text, Option, none, some, ◌≡◌, ◌≢◌, refl,
  arith, length, nat_beq, ◌||◌, inl, inr, Bool-cases, subst, contains, nat_eq,
}
use mathlib.Core.List.{tail}
use oh_my_document.Sources.Scope.{Turn, stop, go, only_stars, retry, turn, run, seg_match}
use oh_my_document.Sources.Scope.Segment.{
  Matches, ends, exact, one_char, star_ends, star_takes, seg_match-Matches,
}

Matches-only_stars : (p : Text) → Matches p [] → only_stars p ≡ true
unfolding only_stars
Matches-only_stars [] ends = refl
Matches-only_stars _ (star_ends p [] m) = ground (arith, Matches-only_stars p m)

Matches-char :
    (x c : ℕ) (p s : Text)
    → x ≢ b'*'
    → Matches (x ∷ p) (c ∷ s)
    → ((nat_beq x b'?' || nat_beq x c) ≡ true) × Matches p s
Matches-char x c p s h (exact _ _ _ m) = (ground arith, m)
Matches-char x c p s h (one_char _ _ _ m) = (ground arith, m)
Matches-char x c p s h (star_ends _ _ m) = ground (arith, h)
Matches-char x c p s h (star_takes _ _ _ m) = ground (arith, h)

no_char : (x : ℕ) (p : Text) {A : Type 0} → x ≢ b'*' → Matches (x ∷ p) [] → A
no_char x p h (star_ends _ _ m) = ground (arith, h)

star_inside : (x : ℕ) (p : Text) → Matches (b'*' ∷ x ∷ p) [] → Matches (x ∷ p) []
star_inside x p (star_ends _ _ m) = m

no_text : (c : ℕ) (s : Text) → ¬ Matches [] (c ∷ s)
no_text c s m = elim m [ ]

Matches-two_stars : (p s : Text) → Matches (b'*' ∷ b'*' ∷ p) s → Matches (b'*' ∷ p) s
Matches-two_stars p s (star_ends _ _ m) = m
Matches-two_stars p (c ∷ s) (star_takes _ _ _ m) = star_takes c p s (Matches-two_stars p s m)
Matches-two_stars p (c ∷ s) (exact _ _ _ m) = star_takes c p s m

Matches-star_char :
    (x c : ℕ) (p s : Text) → x ≢ b'*' → Matches (b'*' ∷ x ∷ p) (c ∷ s) → Matches (b'*' ∷ p) s
Matches-star_char x c p s h (star_ends _ _ m) = star_ends p s (Matches-char x c p s h m).1
Matches-star_char x c p [] h (star_takes _ _ _ m) = no_char x p h (star_inside x p m)
Matches-star_char x c p (d ∷ s) h (star_takes _ _ _ m) =
    star_takes d p s (Matches-star_char x d p s h m)
Matches-star_char x c p [] h (exact _ _ _ m) = no_char x p h m
Matches-star_char x c p (d ∷ s) h (exact _ _ _ m) =
    star_takes d p s (star_ends p s (Matches-char x d p s h m).1)

-- `v` of the text was matched character by character against `u` of the pattern behind the star,
-- where `u ++ p` is that pattern and `v ++ s` the text.
data Agree (q t : Text) : Text → Text → Type 0 where
  here : Agree q t q t
  further : (x c : ℕ) (p s : Text) → x ≢ b'*' → Agree q t (x ∷ p) (c ∷ s) → Agree q t p s

Agree-Matches : (q t p s : Text) → Agree q t p s → Matches q t → Matches p s
Agree-Matches q t _ _ here m = m
Agree-Matches q t p s (further x c _ _ h a) m =
    (Matches-char x c p s h (Agree-Matches q t (x ∷ p) (c ∷ s) a m)).1

Agree-star_Matches : (q t p s : Text) → Agree q t p s → Matches (b'*' ∷ q) t → Matches (b'*' ∷ p) s
Agree-star_Matches q t _ _ here m = m
Agree-star_Matches q t p s (further x c _ _ h a) m =
    Matches-star_char x c p s h (Agree-star_Matches q t (x ∷ p) (c ∷ s) a m)

-- A match of the whole is still within reach.
unfoldable Alive : Text → Text → Option (Text × Text) → Type 0
Alive p s none = Matches p s
Alive p s (some (q, t)) = Matches (b'*' ∷ q) t × Agree q t p s × (contains b'*' t ≡ false)

-- What a turn must leave.
unfoldable Lives : Turn → Type 0
Lives (stop b) = b ≡ true
Lives (go p s restart) = Alive p s restart × (contains b'*' s ≡ false)

tail-free : (t : Text) → contains b'*' t ≡ false → contains b'*' (tail t) ≡ false
unfolding contains
tail-free [] h = refl
tail-free (c ∷ t) h = ground arith

star_rest :
    (q t : Text)
    → contains b'*' t ≡ false
    → (¬ Matches q t)
    → Matches (b'*' ∷ q) t
    → Matches (b'*' ∷ q) (tail t)
unfolding contains
star_rest q t free f (star_ends _ _ m) = elim (f m) [ ]
star_rest q (c ∷ t) free f (star_takes _ _ _ m) = m
star_rest q (c ∷ t) free f (exact _ _ _ m) = ground arith

retry-Lives :
    (p s : Text) (restart : Option (Text × Text))
    → Alive p s restart
    → (¬ Matches p s)
    → Lives (retry restart)
unfolding Lives Alive retry
retry-Lives p s none m f = elim (f m) [ ]
retry-Lives p s (some (q, t)) (m, a, free) f =
    let left = star_rest q t free (λ n. f (Agree-Matches q t p s a n)) m in
    ((left, here, tail-free t free), tail-free t free)

char-Alive :
    (x c : ℕ) (p s : Text) (restart : Option (Text × Text))
    → x ≢ b'*'
    → Alive (x ∷ p) (c ∷ s) restart
    → Alive p s restart
unfolding Alive
char-Alive x c p s none h m = (Matches-char x c p s h m).1
char-Alive x c p s (some (q, t)) h (m, a, free) = (m, further x c p s h a, free)

star-Alive :
    (p s : Text) (restart : Option (Text × Text))
    → contains b'*' s ≡ false
    → Alive (b'*' ∷ p) s restart
    → Alive p s (some (p, s))
unfolding Alive
star-Alive p s none free m = (m, here, free)
star-Alive p s (some (q, t)) free (m, a, _) =
    (Matches-two_stars p s (Agree-star_Matches q t (b'*' ∷ p) s a m), here, free)

turn-Lives :
    (p s : Text) (restart : Option (Text × Text))
    → Alive p s restart
    → contains b'*' s ≡ false
    → Lives (turn p s restart)
unfolding turn contains Lives Alive
turn-Lives p [] none m free = Matches-only_stars p m
turn-Lives p [] (some (q, t)) (m, a, _) free =
    unfold only_stars in Matches-only_stars (b'*' ∷ p) (Agree-star_Matches q t p [] a m)
turn-Lives [] (c ∷ s) restart m free = retry-Lives [] (c ∷ s) restart m (λ n. no_text c s n)
turn-Lives (x ∷ p) (c ∷ s) restart m free = elim (Bool-cases (nat_beq x b'?' || nat_beq x c)) [
  | inl same ↦ rw same (char-Alive x c p s restart (λ e. ground arith) m, ground arith)
  | inr differ ↦ rw differ (elim (Bool-cases (nat_beq x b'*')) [
    | inl star ↦ rw star (
      star-Alive p (c ∷ s) restart free
          (subst (λ y. Alive (y ∷ p) (c ∷ s) restart) (ground arith) m),
      free,
    )
    | inr other ↦ rw other (
        retry-Lives (x ∷ p) (c ∷ s) restart m
          λ n. ground (arith, differ, (Matches-char x c p s (λ e. ground arith) n).0))
  ])
]

turn-true :
    (fuel : ℕ) (b : Bool) (t : Turn)
    → Lives t
    → ((p s : Text) (restart : Option (Text × Text))
        → Alive p s restart
        → contains b'*' s ≡ false
        → run fuel p s restart ≡ some b
        → b ≡ true)
    → elim t [ stop b ↦ some b | go p_next s_next next ↦ run fuel p_next s_next next ] ≡ some b
    → b ≡ true
unfolding Lives
turn-true fuel b (stop c) l rest h = ground (arith, l, h)
turn-true fuel b (go p s restart) (m, free) rest h = rest p s restart m free h

run-true :
    (fuel : ℕ) (b : Bool) (p s : Text) (restart : Option (Text × Text))
    → Alive p s restart
    → contains b'*' s ≡ false
    → run fuel p s restart ≡ some b
    → b ≡ true
unfolding run
run-true zero b p s restart m free h = ground arith
run-true (suc fuel) b p s restart m free h =
    turn-true fuel b (turn p s restart) (turn-Lives p s restart m free) (run-true fuel b) h

-- The match of a segment always ends, and what it answers yes to is a text that the pattern
-- describes: `?` stands for one character, `*` for any characters, and any other for itself. Every
-- such text is found if it holds no `*` itself.
pub seg_match_lem :
    (p s : Text)
    → (b : Bool) × (seg_match p s ≡ some b)
      × (b ≡ true → Matches p s)
      × (contains b'*' s ≡ false → Matches p s → b ≡ true)
seg_match_lem p s =
    let (b, h, sound) = seg_match-Matches p s in
    (
      b,
      h,
      sound,
      λ free m.
          run-true (suc (length s * suc (length p) + length p)) b p s none (unfold Alive in m) free
            (unfold seg_match in h),
    )
