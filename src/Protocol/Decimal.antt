-- ===== src/Protocol/Decimal.antt =====
-- The numbers that pkg/protocol/writer.go prints are read back by the parsers.
use fast_and_accurate_store.Base.{
  ℕ, zero, suc, ◌+◌, ◌-◌, ◌*◌, ◌/◌, ◌%◌, ◌^◌, ◌<◌, ◌≡◌, ◌≢◌, refl, sym, ap, ◌∙◌, true, false, some,
  [], ◌∷◌, ◌++◌, Bytes, arith, ltb, Bool-cases, inl, inr,
}
use mathlib.Core.List.{concat-ne-nil}
use fast_and_accurate_store.Base.Int.{pos, negsuc}
use fast_and_accurate_store.Protocol.Text.{
  is_space, is_digit, trim_left, trim_right, trim, skip_space, read_digits, scan_magnitude,
  scan_signed, scan_int, digits, decimal,
}

abbrev pub Digits : Bytes → Type 0
Digits [] = Unit
Digits (c ∷ s) = (is_digit c ≡ true) × Digits s

Digits-append : (s t : Bytes) → Digits s → Digits t → Digits (s ++ t)
Digits-append [] t hs ht = ht
Digits-append (c ∷ s) t hs ht = (hs.0, Digits-append s t hs.1 ht)

digit_is_digit : (n : ℕ) → is_digit (48 + n % 10) ≡ true
unfolding is_digit
digit_is_digit n = ground arith

digits-small : (rounds n : ℕ) → ltb n 10 ≡ true → digits (suc rounds) n ≡ (48 + n % 10) ∷ []
unfolding digits
digits-small rounds n e = rw e

digits-large :
    (rounds n : ℕ)
    → ltb n 10 ≡ false
    → digits (suc rounds) n ≡ digits rounds (n / 10) ++ (48 + n % 10) ∷ []
unfolding digits
digits-large rounds n e = rw e

digits-Digits : (rounds n : ℕ) → Digits (digits rounds n)
digits-Digits zero n = unfold digits in tt
digits-Digits (suc rounds) n = elim (Bool-cases (ltb n 10)) [
  | inl e ↦ rw (digits-small rounds n e) (digit_is_digit n, tt)
  | inr e ↦ rw (digits-large rounds n e) (
      Digits-append (digits rounds (n / 10)) ((48 + n % 10) ∷ []) (digits-Digits rounds (n / 10))
        (digit_is_digit n, tt))
]

read_digits-cons :
    (acc c : ℕ) (s : Bytes)
    → is_digit c ≡ true
    → read_digits acc (c ∷ s) ≡ read_digits (acc * 10 + (c - 48)) s
unfolding read_digits
read_digits-cons acc c s h = rw h

read_digits-nil : (acc : ℕ) → read_digits acc [] ≡ acc
unfolding read_digits
read_digits-nil acc = refl

read_digits-append :
    (s : Bytes) (c acc : ℕ)
    → Digits s
    → is_digit c ≡ true
    → read_digits acc (s ++ c ∷ []) ≡ read_digits acc s * 10 + (c - 48)
read_digits-append [] c acc hs hc =
    rw (read_digits-cons acc c [] hc, read_digits-nil, read_digits-nil)
read_digits-append (d ∷ s) c acc hs hc =
    read_digits-cons acc d (s ++ c ∷ []) hs.0
    ∙ read_digits-append s c (acc * 10 + (d - 48)) hs.1 hc
    ∙ ap (λ m. m * 10 + (c - 48)) (sym (read_digits-cons acc d s hs.0))

read_digits-digits : (rounds n : ℕ) → n < rounds → read_digits 0 (digits rounds n) ≡ n
read_digits-digits zero n h = elim h [ ]
read_digits-digits (suc rounds) n h = elim (Bool-cases (ltb n 10)) [
  | inl e ↦
      rw
        (
          digits-small rounds n e,
          read_digits-cons 0 (48 + n % 10) [] (digit_is_digit n),
          read_digits-nil,
        )
        (ground arith)
  | inr e ↦
      rw
        (
          digits-large rounds n e,
          read_digits-append (digits rounds (n / 10)) (48 + n % 10) 0
              (digits-Digits rounds (n / 10)) (digit_is_digit n),
          read_digits-digits rounds (n / 10) (ground arith),
        )
        (ground arith)
]

digits-ne-nil : (rounds n : ℕ) → digits (suc rounds) n ≢ []
digits-ne-nil rounds n = elim (Bool-cases (ltb n 10)) [
  | inl e ↦ rw (digits-small rounds n e) (λ z. cc)
  | inr e ↦ rw (digits-large rounds n e) (concat-ne-nil (48 + n % 10) (digits rounds (n / 10)))
]

skip_space-digit : (c : ℕ) (s : Bytes) → is_digit c ≡ true → skip_space (c ∷ s) ≡ some (c ∷ s)
unfolding skip_space is_digit
skip_space-digit c s h = ground arith

scan_signed-digit :
    (c : ℕ) (s : Bytes) → is_digit c ≡ true → scan_signed (c ∷ s) ≡ scan_magnitude false (c ∷ s)
unfolding scan_signed is_digit
scan_signed-digit c s h = ground arith

scan_magnitude-digit :
    (c : ℕ) (s : Bytes) (n : ℕ)
    → is_digit c ≡ true
    → read_digits 0 (c ∷ s) ≡ n
    → n < 2 ^ 63
    → scan_magnitude false (c ∷ s) ≡ some (pos n)
unfolding scan_magnitude
scan_magnitude-digit c s n h e l = rw (h, e) (ground arith)

scan_int-some : (s t : Bytes) → skip_space s ≡ some t → scan_int s ≡ scan_signed t
unfolding scan_int
scan_int-some s t e = ground arith

scan_int-Digits :
    (s : Bytes) (n : ℕ)
    → s ≢ []
    → Digits s
    → read_digits 0 s ≡ n
    → n < 2 ^ 63
    → scan_int s ≡ some (pos n)
scan_int-Digits [] n ne d e l = absurd (ne refl)
scan_int-Digits (c ∷ s) n ne d e l =
    scan_int-some (c ∷ s) (c ∷ s) (skip_space-digit c s d.0)
    ∙ scan_signed-digit c s d.0
    ∙ scan_magnitude-digit c s n d.0 e l

pub decimal-Digits : (n : ℕ) → Digits (decimal n)
unfolding decimal
decimal-Digits n = digits-Digits (suc n) n

pub decimal-ne-nil : (n : ℕ) → decimal n ≢ []
unfolding decimal
decimal-ne-nil n = digits-ne-nil n n

-- What `%d` prints of a number below 2 ^ 63, `%d` reads back.
pub scan_int-decimal : (n : ℕ) → n < 2 ^ 63 → scan_int (decimal n) ≡ some (pos n)
unfolding decimal
scan_int-decimal n l =
    scan_int-Digits (digits (suc n) n) n (digits-ne-nil n n) (digits-Digits (suc n) n)
      (read_digits-digits (suc n) n (omega arith)) l

scan_signed-minus : (s : Bytes) → scan_signed (b'-' ∷ s) ≡ scan_magnitude true s
unfolding scan_signed
scan_signed-minus s = refl

skip_space-minus : (s : Bytes) → skip_space (b'-' ∷ s) ≡ some (b'-' ∷ s)
unfolding skip_space is_space
skip_space-minus s = refl

scan_magnitude-minus :
    (s : Bytes) (n : ℕ)
    → s ≢ []
    → Digits s
    → read_digits 0 s ≡ suc n
    → n < 2 ^ 63
    → scan_magnitude true s ≡ some (negsuc n)
unfolding scan_magnitude
scan_magnitude-minus [] n ne d e l = absurd (ne refl)
scan_magnitude-minus (c ∷ s) n ne d e l = rw (d.0, e) (ground arith)

-- A negative number that fits an `int64` is read behind its sign.
pub scan_int-minus : (n : ℕ) → n < 2 ^ 63 → scan_int (b'-' ∷ decimal (suc n)) ≡ some (negsuc n)
unfolding decimal
scan_int-minus n l =
    scan_int-some (b'-' ∷ decimal (suc n)) (b'-' ∷ decimal (suc n))
      (skip_space-minus (decimal (suc n)))
    ∙ scan_signed-minus (decimal (suc n))
    ∙ scan_magnitude-minus (decimal (suc n)) n (decimal-ne-nil (suc n)) (decimal-Digits (suc n))
        (read_digits-digits (suc (suc n)) (suc n) (omega arith)) l

-- No byte of the text is a space.
abbrev pub NoSpace : Bytes → Type 0
NoSpace [] = Unit
NoSpace (c ∷ s) = (is_space c ≡ false) × NoSpace s

is_digit-is_space : (c : ℕ) → is_digit c ≡ true → is_space c ≡ false
unfolding is_digit is_space
is_digit-is_space c h = ground arith

pub Digits-NoSpace : (s : Bytes) → Digits s → NoSpace s
Digits-NoSpace [] d = tt
Digits-NoSpace (c ∷ s) d = (is_digit-is_space c d.0, Digits-NoSpace s d.1)

trim_right-crlf : (s : Bytes) → NoSpace s → trim_right (s ++ 13 ∷ 10 ∷ []) ≡ s
unfolding trim_right
trim_right-crlf [] h = unfold is_space in refl
trim_right-crlf (c ∷ s) h = rw h.0 (ap (λ t. c ∷ t) (trim_right-crlf s h.1))

trim_left-cons : (c : ℕ) (s : Bytes) → is_space c ≡ false → trim_left (c ∷ s) ≡ c ∷ s
unfolding trim_left
trim_left-cons c s h = rw h refl

trim-cons : (c : ℕ) (s : Bytes) → is_space c ≡ false → trim (c ∷ s) ≡ trim_right (c ∷ s)
unfolding trim
trim-cons c s h = ap trim_right (trim_left-cons c s h)

-- A line without spaces is what is left of it when its end is trimmed off.
pub trim-crlf : (c : ℕ) (s : Bytes) → NoSpace (c ∷ s) → trim (c ∷ s ++ 13 ∷ 10 ∷ []) ≡ c ∷ s
trim-crlf c s h = trim-cons c (s ++ 13 ∷ 10 ∷ []) h.0 ∙ trim_right-crlf (c ∷ s) h
