-- ===== src/Relations/Node/Position.antt =====
-- src/relations/node.rs, `Position`: ranges as payload values, with decimal texts for the numbers.
use mathlib.Core.Option
use oh_my_document.Prelude.{
  ℕ, zero, suc, ◌+◌, ◌-◌, ◌*◌, ◌/◌, ◌%◌, Bool, true, ◌&&◌, [], ◌∷◌, ◌++◌, Text, text_eq, text_beq,
  Option, none, some, codes, nat_beq, if◌then◌else◌, ltb, leb, u64_mod, contains, is_empty,
}
use oh_my_document.Records.Json.{Value, null, string, array, object, nil, cons, Fields, done, field}
use oh_my_document.Relations.Range.{Mode, text, byte, Range}

pub record Position : Type 0 where
  pub mode : Mode
  pub start : Text
  pub end : Text

-- `u64::to_string`: twenty digits are enough.
unfoldable pub print_digits : ℕ → ℕ → Text
print_digits zero n = []
print_digits (suc f) n =
    let more = print_digits f (n / 10) ++ (b'0' + n % 10) ∷ [] in
    if ltb n 10 then (b'0' + n) ∷ [] else more

unfoldable pub print_u64 : ℕ → Text
print_u64 n = print_digits 20 n

-- `str::parse::<u64>`: a leading plus is skipped, and a number past 64 bits is an error.
unfoldable pub parse_digits : ℕ → Text → Option ℕ
parse_digits acc [] = some acc
parse_digits acc (c ∷ s) =
    let rest = parse_digits (acc * 10 + (c - b'0')) s in
    if leb b'0' c && leb c b'9'
    then (if ltb (acc * 10 + (c - b'0')) u64_mod then rest else none)
    else none

skip_plus : Text → Text
skip_plus [] = []
skip_plus (c ∷ s) = if nat_beq c b'+' then s else c ∷ s

unfoldable pub parse_u64 : Text → Option ℕ
unfolding skip_plus
parse_u64 s = if is_empty (skip_plus s) then none else parse_digits 0 (skip_plus s)

-- `From<Range> for Position` and `TryFrom<Position> for Range`.
unfoldable pub of_range : Range → Position
of_range r = record { mode = r.mode; start = print_u64 r.start; end = print_u64 r.end }

unfoldable pub ordered : Mode → Option ℕ → Option ℕ → Option Range
ordered mode (some start) (some end) =
    if ltb end start then none else some (record { start = start; end = end; mode = mode })
ordered mode _ _ = none

unfoldable pub to_range : Position → Option Range
unfolding ordered
to_range p = ordered p.mode (parse_u64 p.start) (parse_u64 p.end)

unfoldable pub mode_text : Mode → Text
mode_text text = codes "text"
mode_text byte = codes "byte"

unfoldable pub mode_of : Text → Option Mode
mode_of s =
    if text_beq s (codes "text")
    then some text
    else if text_beq s (codes "byte")
    then some byte
    else none

-- `serde_json::to_value(Position::from(range))`.
unfoldable pub position_value : Range → Value
unfolding of_range mode_text
position_value r =
    let p = of_range r in
    object (
      field (codes "end") (string p.end) (
        field (codes "mode") (string (mode_text p.mode))
          (field (codes "start") (string p.start) done)))

-- `serde_json::from_value::<Position>`. serde takes a struct from an object without further keys
-- or from an array of its fields, and a unit variant from its name or from an object `{name: null}`.
unfoldable pub mode_from_value : Value → Option Mode
mode_from_value (string s) = mode_of s
mode_from_value (object (field s null done)) = mode_of s
mode_from_value _ = none

unfoldable pub value_field : Text → Fields → Option Value
value_field k done = none
value_field k (field j v fs) = if text_beq j k then some v else value_field k fs

unfoldable pub only_known : Fields → Bool
only_known done = true
only_known (field j v fs) =
    contains j (codes "mode" ∷ codes "start" ∷ codes "end" ∷ []) && only_known fs

unfoldable pub position_from : Option Value → Option Value → Option Value → Option Position
position_from (some m) (some (string start)) (some (string end)) =
    Option.map (λ mode. record { mode = mode; start = start; end = end }) (mode_from_value m)
position_from _ _ _ = none

unfoldable pub position_from_value : Value → Option Range
unfolding position_from value_field only_known mode_from_value mode_of to_range
position_from_value (object fs) =
    if only_known fs
    then Option.bind
        (position_from (value_field (codes "mode") fs) (value_field (codes "start") fs)
          (value_field (codes "end") fs))
        to_range
    else none
position_from_value (array (cons m (cons start (cons end nil)))) =
    Option.bind (position_from (some m) (some start) (some end)) to_range
position_from_value _ = none
