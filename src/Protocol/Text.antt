-- ===== src/Protocol/Text.antt =====
-- What pkg/protocol uses of the standard library on text: strings.TrimSpace, Fields and ToUpper,
-- Sscanf with %d, and Fprintf with %d. Bytes from 128 on are no space and have no upper case here:
-- the Unicode spaces and letters are not modelled.
use fast_and_accurate_store.Base.{
  ℕ, zero, suc, ◌+◌, ◌-◌, ◌*◌, ◌/◌, ◌%◌, ◌^◌, Bool, true, false, ◌&&◌, ◌||◌, Option, none, some,
  List, [], ◌∷◌, ◌++◌, map, Bytes, ltb, leb, ◌==◌, if◌then◌else◌,
}
use fast_and_accurate_store.Base.Int.{ℤ, pos, negsuc}

unfoldable pub is_space : ℕ → Bool
is_space c = c == 32 || (leb 9 c && leb c 13)

unfoldable pub is_digit : ℕ → Bool
is_digit c = leb 48 c && leb c 57

unfoldable pub trim_left : Bytes → Bytes
unfolding is_space
trim_left [] = []
trim_left (c ∷ s) = if is_space c then trim_left s else c ∷ s

abbrev pub is_empty : Bytes → Bool
is_empty [] = true
is_empty (c ∷ s) = false

unfoldable pub trim_right : Bytes → Bytes
unfolding is_space
trim_right [] = []
trim_right (c ∷ s) = let rest = trim_right s in if is_space c && is_empty rest then [] else c ∷ rest

-- strings.TrimSpace
unfoldable pub trim : Bytes → Bytes
trim s = trim_right (trim_left s)

-- strings.Fields, with the field that is being read.
unfoldable pub fields_from : Bytes → Bytes → List Bytes
unfolding is_space
fields_from [] [] = []
fields_from [] (d ∷ field) = (d ∷ field) ∷ []
fields_from (c ∷ s) [] = elim (is_space c) [
  | true ↦ fields_from s []
  | false ↦ fields_from s (c ∷ [])
]
fields_from (c ∷ s) (d ∷ field) = elim (is_space c) [
  | true ↦ (d ∷ field) ∷ fields_from s []
  | false ↦ fields_from s (d ∷ field ++ c ∷ [])
]

unfoldable pub fields : Bytes → List Bytes
unfolding fields_from
fields s = fields_from s []

unfoldable pub upper_byte : ℕ → ℕ
upper_byte c = if leb 97 c && leb c 122 then c - 32 else c

-- strings.ToUpper
unfoldable pub to_upper : Bytes → Bytes
unfolding upper_byte
to_upper s = map upper_byte s

-- The spaces that %d skips; a newline ends the scan with an error.
unfoldable pub skip_space : Bytes → Option Bytes
unfolding is_space
skip_space [] = some []
skip_space (c ∷ s) =
    let rest = skip_space s in if c == 10 then none else if is_space c then rest else some (c ∷ s)

-- The value of the digits in front, onto `acc`.
unfoldable pub read_digits : ℕ → Bytes → ℕ
unfolding is_digit
read_digits acc [] = acc
read_digits acc (c ∷ s) =
    let rest = read_digits (acc * 10 + (c - 48)) s in if is_digit c then rest else acc

abbrev starts_with_digit : Bytes → Bool
unfolding is_digit
starts_with_digit [] = false
starts_with_digit (c ∷ s) = is_digit c

-- The digits behind a sign. A value that does not fit an `int64` is an error.
unfoldable pub scan_magnitude : Bool → Bytes → Option ℤ
unfolding starts_with_digit
scan_magnitude minus s =
    let n = read_digits 0 s in
    if starts_with_digit s
    then if minus
      then if n == 0 then some (pos 0) else if leb n (2 ^ 63) then some (negsuc (n - 1)) else none
      else if ltb n (2 ^ 63)
      then some (pos n)
      else none
    else none

unfoldable pub scan_signed : Bytes → Option ℤ
unfolding scan_magnitude
scan_signed [] = none
scan_signed (c ∷ s) =
    if c == b'-'
    then scan_magnitude true s
    else if c == b'+'
    then scan_magnitude false s
    else scan_magnitude false (c ∷ s)

-- Sscanf(s, "%d", &n); what follows the number is not read.
unfoldable pub scan_int : Bytes → Option ℤ
unfolding skip_space scan_signed
scan_int s = elim (skip_space s) [ none ↦ none | some t ↦ scan_signed t ]

-- Fprintf with %d of a number that is not negative, with `suc n` as fuel; each round divides by ten.
unfoldable pub digits : ℕ → ℕ → Bytes
digits zero n = []
digits (suc rounds) n =
    let high = digits rounds (n / 10) in (if ltb n 10 then [] else high) ++ (48 + n % 10) ∷ []

unfoldable pub decimal : ℕ → Bytes
unfolding digits
decimal n = digits (suc n) n
