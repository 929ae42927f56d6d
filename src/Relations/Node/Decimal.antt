-- ===== src/Relations/Node/Decimal.antt =====
-- Numbers and ranges survive the way through their texts and payload values.
use oh_my_document.Prelude.{
  ℕ, zero, suc, ◌+◌, ◌-◌, ◌*◌, ◌/◌, ◌%◌, ◌<◌, ◌≤◌, [], ◌∷◌, ◌++◌, Text, text_beq, some, codes, ltb,
  u64_mod, ◌≡◌, refl, arith, Bool-cases, inl, inr, append_assoc, append-nil, contains, ap, sym, ◌∙◌,
}
use oh_my_document.Relations.Range.{Mode, text, byte, Range}
use oh_my_document.Relations.Node.Position.{
  print_digits, print_u64, parse_digits, parse_u64, position_value, position_from_value, to_range,
  of_range, mode_text, only_known, value_field, position_from, mode_from_value, mode_of, ordered,
}
use oh_my_document.Records.Json.{object, field, done, string}

pow10 : ℕ → ℕ
pow10 zero = 1
pow10 (suc f) = 10 * pow10 f

more_digits : (f n : ℕ) → 10 ≤ n → n < 10 * pow10 f → 0 < f
unfolding pow10
more_digits zero n h k = omega arith
more_digits (suc f) n h k = omega arith

one_digit :
    (d n m : ℕ) (rest : Text)
    → d < 10
    → m ≡ n * 10 + d
    → m < u64_mod
    → parse_digits n ((b'0' + d) ∷ rest) ≡ parse_digits m rest
unfolding parse_digits
one_digit d n m rest h e l =
    let same : n * 10 + (b'0' + d - b'0') ≡ m = omega arith in rw same (ground arith)

-- Reading the digits of `n` behind an empty accumulator, with more digits to follow.
parse-print :
    (f n : ℕ) (rest : Text)
    → n < pow10 f
    → 0 < f
    → n < u64_mod
    → parse_digits 0 (print_digits f n ++ rest) ≡ parse_digits n rest
unfolding pow10 print_digits
parse-print zero n rest h k l = absurd (omega arith)
parse-print (suc f) n rest h k l = elim (Bool-cases (ltb n 10)) [
  | inl small ↦ rw small (one_digit n 0 n rest (ground arith) (omega arith) l)
  | inr big ↦
      let wide : 10 ≤ n = ground arith in
      rw big (
        ap (parse_digits 0) (append_assoc (print_digits f (n / 10)) ((b'0' + n % 10) ∷ []) rest)
        ∙ parse-print f (n / 10) ((b'0' + n % 10) ∷ rest) (omega arith) (more_digits f n wide h)
            (omega arith)
        ∙ one_digit (n % 10) (n / 10) n rest (omega arith) (omega arith) l)
]

starts_with_digit : (f n : ℕ) → 0 < f → (d : ℕ) × (s : Text) × (print_digits f n ≡ (b'0' + d) ∷ s)
unfolding print_digits
starts_with_digit zero n h = absurd (omega arith)
starts_with_digit (suc zero) n h = elim (Bool-cases (ltb n 10)) [
  | inl small ↦ (n, [], rw small)
  | inr big ↦ (n % 10, [], rw big)
]
starts_with_digit (suc (suc f)) n h = elim (Bool-cases (ltb n 10)) [
  | inl small ↦ (n, [], rw small)
  | inr big ↦
      let (d, s, e) = starts_with_digit (suc f) (n / 10) (omega arith) in
      (d, s ++ (b'0' + n % 10) ∷ [], rw big (ap (λ t. t ++ (b'0' + n % 10) ∷ []) e))
]

parse-print_u64 : (n : ℕ) → n < u64_mod → parse_u64 (print_u64 n) ≡ some n
unfolding parse_u64 print_u64
parse-print_u64 n h =
    let (d, s, e) = starts_with_digit 20 n (omega arith) in
    let read : parse_digits 0 (print_digits 20 n) ≡ some n =
      ap (parse_digits 0) (sym (append-nil (print_digits 20 n)))
      ∙ unfold pow10 parse_digits in parse-print 20 n [] (omega arith) (omega arith) h in
    rw e (unfold parse_u64 in ground (arith, rw e at read))

read_fields :
    (m : Mode) (start end : Text)
    → position_from_value (
        object (
          field (codes "end") (string end) (
            field
              (codes "mode")
              (string (mode_text m))
              (field (codes "start") (string start) done))))
      ≡ ordered m (parse_u64 start) (parse_u64 end)
unfolding position_from_value mode_text only_known value_field position_from mode_from_value mode_of
    to_range contains text_beq parse_u64 mathlib.Core.Option.bind
read_fields text start end = refl
read_fields byte start end = refl

-- A range whose ends are ordered machine words is read back from the payload value that is
-- written for it.
pub position_from_value-position_value :
    (r : Range)
    → r.start ≤ r.end
    → r.end < u64_mod
    → position_from_value (position_value r) ≡ some r
position_from_value-position_value r h k =
    let read : position_from_value (position_value r)
        ≡ ordered r.mode (parse_u64 (print_u64 r.start)) (parse_u64 (print_u64 r.end)) =
      unfold position_value of_range in read_fields r.mode (print_u64 r.start) (print_u64 r.end) in
    read
    ∙ rw (parse-print_u64 r.start (omega arith), parse-print_u64 r.end k)
        (unfold ordered in ground arith)
