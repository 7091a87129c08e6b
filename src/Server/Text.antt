-- ===== src/Server/Text.antt =====
-- What pkg/server uses of strings and strconv: SplitN with 2, Split, Atoi and ParseInt.
use fast_and_accurate_store.Base.{
  ℕ, ◌-◌, ◌+◌, ◌^◌, Bool, true, false, ◌&&◌, Option, none, some, List, [], ◌∷◌, ◌++◌, Bytes, ltb,
  leb, ◌==◌, if◌then◌else◌,
}
use fast_and_accurate_store.Base.Int.{ℤ, pos, negsuc}
use fast_and_accurate_store.Protocol.Text.{is_digit, read_digits}

-- strings.SplitN(s, sep, 2) of a separator of one byte; none where there is none.
unfoldable pub split_once : ℕ → Bytes → Option (Bytes × Bytes)
split_once sep [] = none
split_once sep (c ∷ s) =
    let rest = split_once sep s in
    if c == sep
    then some ([], s)
    else elim rest [ none ↦ none | some (before, behind) ↦ some (c ∷ before, behind) ]

-- strings.Split of a separator of one byte, with the part that is being read.
unfoldable pub split_from : ℕ → Bytes → Bytes → List Bytes
split_from sep part [] = part ∷ []
split_from sep part (c ∷ s) = elim (c == sep) [
  | true ↦ part ∷ split_from sep [] s
  | false ↦ split_from sep (part ++ c ∷ []) s
]

unfoldable pub split : ℕ → Bytes → List Bytes
unfolding split_from
split sep s = split_from sep [] s

unfoldable pub all_digits : Bytes → Bool
unfolding is_digit
all_digits [] = true
all_digits (c ∷ s) = is_digit c && all_digits s

-- The digits behind a sign; none where there is none, where another byte stands, or out of range.
unfoldable pub parse_magnitude : Bool → Bytes → Option ℤ
unfolding all_digits read_digits
parse_magnitude minus [] = none
parse_magnitude minus (c ∷ s) =
    let n = read_digits 0 (c ∷ s) in
    if all_digits (c ∷ s)
    then if minus
      then if n == 0 then some (pos 0) else if leb n (2 ^ 63) then some (negsuc (n - 1)) else none
      else if ltb n (2 ^ 63)
      then some (pos n)
      else none
    else none

-- strconv.Atoi, and strconv.ParseInt in base 10 with 64 bits
unfoldable pub parse_int : Bytes → Option ℤ
unfolding parse_magnitude
parse_int [] = none
parse_int (c ∷ s) =
    if c == b'-'
    then parse_magnitude true s
    else if c == b'+'
    then parse_magnitude false s
    else parse_magnitude false (c ∷ s)

-- The pattern of an integer that fits an `int64`
abbrev pub int64_of : ℤ → ℕ
int64_of (pos n) = n
int64_of (negsuc n) = 2 ^ 64 - (n + 1)
