-- ===== src/Relations/Range/Slice.antt =====
-- src/relations/range.rs, `text_slice`: from character positions to a slice of the UTF-8 text.
use Prim.Native.Nat.add
use oh_my_document.Prelude.{
  ℕ, ◌+◌, ◌-◌, ◌≤◌, ◌<◌, Option, none, some, Text, [], ◌∷◌, ltb, leb, if◌then◌else◌, ◌==◌, nat_eq,
  Result, ok, err, Outcome, value, panic, length, take, drop, take-nil, zero, suc, is_none, ◌&&◌,
  not, ◌≡◌, refl, arith, ap,
}
use oh_my_document.Relations.Range.{text, mode_eq, Range, RangeError, out_of_bounds, decode}

-- The bytes of one scalar value in UTF-8.
unfoldable pub utf8_len : ℕ → ℕ
utf8_len c = if ltb c 0x80 then 1 else if ltb c 0x800 then 2 else if ltb c 0x10000 then 3 else 4

unfoldable pub byte_len : Text → ℕ
byte_len [] = 0
byte_len (c ∷ s) = utf8_len c + byte_len s

-- `&s[a..]` and `&s[..b]`: a position inside a character has no slice.
unfoldable pub byte_drop : ℕ → Text → Option Text
byte_drop n [] = if n == 0 then some [] else none
byte_drop n (c ∷ s) =
    if n == 0
    then some (c ∷ s)
    else if leb (utf8_len c) n
    then byte_drop (n - utf8_len c) s
    else none

unfoldable pub byte_take : ℕ → Text → Option Text
byte_take n [] = if n == 0 then some [] else none
byte_take n (c ∷ s) =
    if n == 0
    then some []
    else if leb (utf8_len c) n
    then elim (byte_take (n - utf8_len c) s) [ none ↦ none | some r ↦ some (c ∷ r) ]
    else none

unfoldable pub byte_slice : Text → ℕ → ℕ → Option Text
byte_slice s a b =
    if ltb b a then none else elim (byte_drop a s) [ none ↦ none | some r ↦ byte_take (b - a) r ]

-- The loop over `char_indices().enumerate()`: at character `i`, byte `b`.
unfoldable pub scan : Text → ℕ → ℕ → ℕ → ℕ → Option ℕ → Option ℕ × Option ℕ
scan [] i b start end start_byte = (start_byte, none)
scan (c ∷ s) i b start end start_byte =
    let start_byte' = if i == start then some b else start_byte in
    let rest = scan s (i + 1) (b + utf8_len c) start end start_byte' in
    if i == end then (start_byte', some b) else rest

slice_at : Text → Option ℕ → Option ℕ → Outcome (Result RangeError Text)
slice_at s (some a) (some b) = elim (byte_slice s a b) [ none ↦ panic | some r ↦ value (ok r) ]
slice_at s _ _ = value (err out_of_bounds)

-- The two `if`s behind the loop. The last guarded arm of the `match` is never taken: where
-- `r.end` is the length, `end_byte` was set.
close_start : Text → Range → Option ℕ → Option ℕ
close_start s r found = if r.start == length s then some (byte_len s) else found

close_end : Text → Range → Option ℕ → Option ℕ
close_end s r found = if r.end == length s && is_none found then some (byte_len s) else found

unfoldable pub text_slice : Text → Range → Outcome (Result RangeError Text)
unfolding slice_at close_start close_end
text_slice s r =
    let (start_byte, end_byte) = scan s 0 0 r.start r.end none in
    if not (r.mode == text)
    then value (err decode)
    else slice_at s (close_start s r start_byte) (close_end s r end_byte)

-- The loop once `start` is behind it; `end` stands `k` characters ahead, or past the text.
scan_past :
    (s : Text) (i b start end k : ℕ) (found : Option ℕ)
    → start < i
    → end ≡ i + k
    → scan s i b start end found
      ≡ (found, if ltb k (length s) then some (b + byte_len (take k s)) else none)
unfolding scan byte_len
scan_past [] i b start end k found h e = ground arith
scan_past (c ∷ s) i b start end zero found h e = ground arith
scan_past (c ∷ s) i b start end (suc k) found h e =
    ground (arith, scan_past s (i + 1) (b + utf8_len c) start end k found)

scan-at :
    (s : Text) (i b start end j k : ℕ) (found : Option ℕ)
    → start ≡ i + j
    → end ≡ i + (j + k)
    → scan s i b start end found ≡ (
      if ltb j (length s) then some (b + byte_len (take j s)) else found,
      if ltb (j + k) (length s) then some (b + byte_len (take (j + k) s)) else none,
    )
unfolding scan byte_len
scan-at [] i b start end j k found h e = ground arith
scan-at (c ∷ s) i b start end zero zero found h e = ground arith
scan-at (c ∷ s) i b start end zero (suc k) found h e =
    ground (arith, scan_past s (i + 1) (b + utf8_len c) start end k (some b))
scan-at (c ∷ s) i b start end (suc j) k found h e =
    ground (arith, scan-at s (i + 1) (b + utf8_len c) start end j k found)

utf8_len-pos : (c : ℕ) → 0 < utf8_len c
unfolding utf8_len
utf8_len-pos c = ground arith

byte_drop-byte_len : (k : ℕ) (s : Text) → byte_drop (byte_len (take k s)) s ≡ some (drop k s)
unfolding byte_drop byte_len
byte_drop-byte_len zero [] = refl
byte_drop-byte_len zero (c ∷ s) = refl
byte_drop-byte_len (suc k) [] = refl
byte_drop-byte_len (suc k) (c ∷ s) = ground (arith, utf8_len-pos c, byte_drop-byte_len k s)

byte_take-byte_len : (k : ℕ) (s : Text) → byte_take (byte_len (take k s)) s ≡ some (take k s)
unfolding byte_take byte_len
byte_take-byte_len zero [] = refl
byte_take-byte_len zero (c ∷ s) = refl
byte_take-byte_len (suc k) [] = refl
byte_take-byte_len (suc k) (c ∷ s) = ground (arith, utf8_len-pos c, byte_take-byte_len k s)

byte_len-take_add :
    (j k : ℕ) (s : Text)
    → byte_len (take (j + k) s) ≡ byte_len (take j s) + byte_len (take k (drop j s))
unfolding byte_len
byte_len-take_add zero k s = ground arith
byte_len-take_add (suc j) k [] = ground (arith, take-nil {A = ℕ} (suc j + k), take-nil {A = ℕ} k)
byte_len-take_add (suc j) k (c ∷ s) = rw add.suc (omega (arith, byte_len-take_add j k s))

take_all : (s : Text) (k : ℕ) → length s ≤ k → take k s ≡ s
take_all [] zero h = refl
take_all [] (suc k) h = refl
take_all (c ∷ s) zero h = absurd (omega arith)
take_all (c ∷ s) (suc k) h = ap (◌∷◌ c) (take_all s k (omega arith))

byte_slice_lem :
    (s : Text) (j k : ℕ)
    → byte_slice s (byte_len (take j s)) (byte_len (take (j + k) s)) ≡ some (take k (drop j s))
unfolding byte_slice
byte_slice_lem s j k =
    ground (arith, byte_drop-byte_len j s, byte_len-take_add j k s, byte_take-byte_len k (drop j s))

-- The slice of an ordered range: the characters at its positions, or an error where it reaches
-- past the text or counts bytes. It never panics.
pub text_slice_lem :
    (s : Text) (r : Range)
    → r.start ≤ r.end
    → text_slice s r
      ≡ value (
          if not (r.mode == text)
          then err decode
          else if leb r.end (length s)
          then ok (take (r.end - r.start) (drop r.start s))
          else err out_of_bounds)
unfolding text_slice
text_slice_lem s r h =
    let k = r.end - r.start in
    ground (
      arith,
      scan-at s 0 0 r.start r.end r.start k none,
      byte_slice_lem s r.start k,
      take_all s r.start,
      take_all s (r.start + k),
    )
