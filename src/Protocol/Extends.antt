-- ===== src/Protocol/Extends.antt =====
-- `ParseCommandFromBytes` of pkg/protocol/parser.go when more input arrives behind what it was given.
use fast_and_accurate_store.Base.{
  ℕ, zero, suc, ◌+◌, ◌-◌, ◌≤◌, ◌≡◌, ◌≢◌, refl, sym, ap, subst, some, List, [], ◌∷◌, ◌++◌, Bytes,
  arith, ltb, ◌==◌, length, length-append, take, drop, inl, inr, Bool-cases, Option-cases,
}
use fast_and_accurate_store.Base.Int.{ℤ, pos, negsuc}
use fast_and_accurate_store.Protocol.Text.{scan_int}
use fast_and_accurate_store.Protocol.Command.{max_args, max_bulk_length}
use fast_and_accurate_store.Protocol.Consumed.{
  index_crlf-bound, Leaves, Leaves-mono, length-drop, parse_bulks-Leaves,
}
use fast_and_accurate_store.Protocol.Buffer.{
  Outcome, incomplete, skipped, parsed, failed, panicked, index_crlf, words_outcome, parse_inline,
  parse_bulk_body, Bulks, more, stop, panic, done, parse_header, parse_bulk, parse_bulks,
  bulks_outcome, parse_resp_array, parse_command_from_bytes,
}

take-append : (n : ℕ) (s t : Bytes) → n ≤ length s → take n (s ++ t) ≡ take n s
take-append zero s t h = refl
take-append (suc n) [] t h = absurd (omega arith)
take-append (suc n) (c ∷ s) t h = ap (λ r. c ∷ r) (take-append n s t (omega arith))

pub drop-append : (n : ℕ) (s t : Bytes) → n ≤ length s → drop n (s ++ t) ≡ drop n s ++ t
drop-append zero s t h = refl
drop-append (suc n) [] t h = absurd (omega arith)
drop-append (suc n) (c ∷ s) t h = drop-append n s t (omega arith)

index_crlf-append : (s t : Bytes) (i : ℕ) → index_crlf s ≡ some i → index_crlf (s ++ t) ≡ some i
unfolding index_crlf
index_crlf-append [] t i e = cc
index_crlf-append (c ∷ []) t i e = cc
index_crlf-append (c ∷ d ∷ s) t i e = elim (Option-cases (index_crlf (d ∷ s))) [
  | inl e' ↦ ground (arith, e')
  | inr (k, e') ↦ ground (arith, e', index_crlf-append (d ∷ s) t k e')
]

-- What an outcome says of the outcome of a longer input: an outcome stands, unless it was that the
-- input is incomplete.
abbrev pub Settles : Outcome → Outcome → Type 0
Settles incomplete o = Unit
Settles (skipped n) o = o ≡ skipped n
Settles (parsed cmd n) o = o ≡ parsed cmd n
Settles (failed e) o = o ≡ failed e
Settles panicked o = o ≡ panicked

-- The same of the loop over the arguments, with `t` behind the input.
abbrev Continues : Bytes → Bulks → Bulks → Type 0
Continues t more b = Unit
Continues t (stop e) b = b ≡ stop e
Continues t panic b = b ≡ panic
Continues t (done args rest) b = b ≡ done args (rest ++ t)

Settles-refl : (o : Outcome) → Settles o o
Settles-refl incomplete = tt
Settles-refl (skipped n) = refl
Settles-refl (parsed cmd n) = refl
Settles-refl (failed e) = refl
Settles-refl panicked = refl

-- The line up to the first CRLF, and what stands behind it.
line-append : (s t : Bytes) (i : ℕ) → index_crlf s ≡ some i → take i (s ++ t) ≡ take i s
line-append s t i e = take-append i s t (omega (arith, index_crlf-bound s i e))

behind-append :
    (s t : Bytes) (i : ℕ) → index_crlf s ≡ some i → drop (i + 2) (s ++ t) ≡ drop (i + 2) s ++ t
behind-append s t i e = drop-append (i + 2) s t (index_crlf-bound s i e)

inline-Settles : (s t : Bytes) → Settles (parse_inline s) (parse_inline (s ++ t))
unfolding parse_inline
inline-Settles s t = elim (Option-cases (index_crlf s)) [
  | inl e ↦ rw (parse_inline, e) tt
  | inr (i, e) ↦
      rw (parse_inline, e, index_crlf-append s t i e, line-append s t i e) (Settles-refl _)
]

header-Continues :
    (s t : Bytes) (next next' : ℤ → Bytes → Bulks)
    → ((blen : ℤ) (body : Bytes) → Continues t (next blen body) (next' blen (body ++ t)))
    → Continues t (parse_header s next) (parse_header (s ++ t) next')
unfolding parse_header
header-Continues [] t next next' h = tt
header-Continues (c ∷ s) t next next' h = elim (Bool-cases (c == b'$')) [
  | inl e₁ ↦ elim (Option-cases (index_crlf (c ∷ s))) [
    | inl e₂ ↦ rw (e₁, e₂) tt
    | inr (i, e₂) ↦ elim (Option-cases (scan_int (drop 1 (take i (c ∷ s))))) [
      | inl e₃ ↦ rw (e₁, e₂, index_crlf-append (c ∷ s) t i e₂, line-append (c ∷ s) t i e₂, e₃) refl
      | inr (blen, e₃) ↦
          rw
            (
              e₁,
              e₂,
              index_crlf-append (c ∷ s) t i e₂,
              line-append (c ∷ s) t i e₂,
              e₃,
              behind-append (c ∷ s) t i e₂,
            )
            (h blen (drop (i + 2) (c ∷ s)))
    ]
  ]
  | inr e₁ ↦ rw e₁ tt
]

body-append :
    (n : ℕ) (body t arg rest : Bytes)
    → parse_bulk_body n body ≡ some (arg, rest)
    → parse_bulk_body n (body ++ t) ≡ some (arg, rest ++ t)
unfolding parse_bulk_body
body-append n body t arg rest e = elim (Bool-cases (ltb (length body) (n + 2))) [
  | inl short ↦ absurd (ground (arith, e, short))
  | inr long ↦
      ground
        (arith, e, long, length-append body t, take-append n body t, drop-append (n + 2) body t)
]

bulk-Continues :
    (blen : ℤ) (body t : Bytes) (next next' : Bytes → Bytes → Bulks)
    → ((arg rest : Bytes) → Continues t (next arg rest) (next' arg (rest ++ t)))
    → Continues t (parse_bulk blen body next) (parse_bulk blen (body ++ t) next')
unfolding parse_bulk
bulk-Continues (pos n) body t next next' h = elim (Bool-cases (ltb max_bulk_length n)) [
  | inl e₁ ↦ rw e₁ refl
  | inr e₁ ↦ elim (Option-cases (parse_bulk_body n body)) [
    | inl e₂ ↦ rw (e₁, e₂) tt
    | inr ((arg, rest), e₂) ↦ rw (e₁, e₂, body-append n body t arg rest e₂) (h arg rest)
  ]
]
bulk-Continues (negsuc zero) body t next next' h = h [] body
bulk-Continues (negsuc (suc n)) body t next next' h = refl

bulks-Continues :
    (count : ℕ) (s t : Bytes) (args : List Bytes)
    → Continues t (parse_bulks count s args) (parse_bulks count (s ++ t) args)
unfolding parse_bulks
bulks-Continues zero s t args = refl
bulks-Continues (suc count) s t args = header-Continues s t _ _ λ blen body.
    bulk-Continues blen body t _ _ λ arg rest. bulks-Continues count rest t (args ++ arg ∷ [])

words_consumed :
    (s rest t : Bytes)
    → length rest ≤ length s
    → length (s ++ t) - length (rest ++ t) ≡ length s - length rest
words_consumed s rest t l = omega (arith, length-append s t, length-append rest t)

bulks_outcome-Settles :
    (s t : Bytes) (b b' : Bulks)
    → Leaves (length s) b
    → Continues t b b'
    → Settles (bulks_outcome s b) (bulks_outcome (s ++ t) b')
unfolding bulks_outcome
bulks_outcome-Settles s t more b' l c = tt
bulks_outcome-Settles s t (stop e) b' l c = rw c refl
bulks_outcome-Settles s t panic b' l c = rw c refl
bulks_outcome-Settles s t (done args rest) b' l c = rw c (
    subst (λ n. Settles (words_outcome args (length s - length rest)) (words_outcome args n))
      (sym (words_consumed s rest t l)) (Settles-refl _))

array-Settles :
    (s t : Bytes) (i : ℕ) (count : ℤ)
    → index_crlf s ≡ some i
    → scan_int (drop 1 (take i s)) ≡ some count
    → Settles (parse_resp_array s) (parse_resp_array (s ++ t))
unfolding parse_resp_array
array-Settles s t i (negsuc n) e₁ e₂ =
    rw (parse_resp_array, e₁, index_crlf-append s t i e₁, line-append s t i e₁, e₂) refl
array-Settles s t i (pos n) e₁ e₂ = elim (Bool-cases (ltb max_args n)) [
  | inl e₃ ↦
      rw (parse_resp_array, e₁, index_crlf-append s t i e₁, line-append s t i e₁, e₂, e₃) refl
  | inr e₃ ↦
      rw
        (
          parse_resp_array,
          e₁,
          index_crlf-append s t i e₁,
          line-append s t i e₁,
          e₂,
          e₃,
          behind-append s t i e₁,
        )
        (bulks_outcome-Settles s t _ _
          (Leaves-mono (length (drop (i + 2) s)) (length s) _ (omega (arith, length-drop (i + 2) s))
            (parse_bulks-Leaves n (drop (i + 2) s) []))
          (bulks-Continues n (drop (i + 2) s) t []))
]

resp_array-Settles : (s t : Bytes) → Settles (parse_resp_array s) (parse_resp_array (s ++ t))
unfolding parse_resp_array
resp_array-Settles s t = elim (Option-cases (index_crlf s)) [
  | inl e₁ ↦ rw (parse_resp_array, e₁) tt
  | inr (i, e₁) ↦ elim (Option-cases (scan_int (drop 1 (take i s)))) [
    | inl e₂ ↦ rw (parse_resp_array, e₁, index_crlf-append s t i e₁, line-append s t i e₁, e₂) refl
    | inr (count, e₂) ↦ array-Settles s t i count e₁ e₂
  ]
]

pub parse_command_from_bytes-Settles :
    (s t : Bytes) → Settles (parse_command_from_bytes s) (parse_command_from_bytes (s ++ t))
unfolding parse_command_from_bytes
parse_command_from_bytes-Settles [] t = tt
parse_command_from_bytes-Settles (c ∷ s) t = elim (Bool-cases (c == b'*')) [
  | inl e ↦ rw e (resp_array-Settles (c ∷ s) t)
  | inr e ↦ rw e (inline-Settles (c ∷ s) t)
]

stands : (o o' : Outcome) → Settles o o' → o ≢ incomplete → o' ≡ o
stands incomplete o' h n = absurd (n refl)
stands (skipped n) o' h ne = h
stands (parsed cmd n) o' h ne = h
stands (failed e) o' h ne = h
stands panicked o' h ne = h

-- What `ParseCommandFromBytes` returns of an input that it does not find incomplete, it returns of
-- every input that begins so: a command and the bytes it consumed, a skipped line, an error, a panic.
pub parse_command_from_bytes-append :
    (s t : Bytes)
    → parse_command_from_bytes s ≢ incomplete
    → parse_command_from_bytes (s ++ t) ≡ parse_command_from_bytes s
parse_command_from_bytes-append s t =
    stands (parse_command_from_bytes s) (parse_command_from_bytes (s ++ t))
      (parse_command_from_bytes-Settles s t)
