-- ===== src/Protocol/Consumed.antt =====
-- How much of its input `ParseCommandFromBytes` of pkg/protocol/parser.go consumes.
use fast_and_accurate_store.Base.{
  ℕ, zero, suc, ◌+◌, ◌-◌, ◌<◌, ◌≤◌, ◌≡◌, some, List, [], ◌∷◌, ◌++◌, Bytes, arith, ltb, ◌==◌, length,
  take, drop, inl, inr, Bool-cases, Option-cases,
}
use fast_and_accurate_store.Base.Int.{ℤ, pos, negsuc}
use fast_and_accurate_store.Protocol.Text.{scan_int, fields, trim}
use fast_and_accurate_store.Protocol.Command.{max_args, max_bulk_length, max_inline_bytes}
use fast_and_accurate_store.Protocol.Buffer.{
  Outcome, incomplete, skipped, parsed, failed, panicked, index_crlf, words_outcome, parse_inline,
  parse_bulk_body, Bulks, more, stop, panic, done, parse_header, parse_bulk, parse_bulks,
  bulks_outcome, parse_resp_array, parse_command_from_bytes,
}

-- What an outcome says of the bytes consumed: at least one and at most `n`.
abbrev pub Consumes : ℕ → Outcome → Type 0
Consumes n incomplete = Unit
Consumes n (skipped k) = (0 < k) × (k ≤ n)
Consumes n (parsed c k) = (0 < k) × (k ≤ n)
Consumes n (failed e) = Unit
Consumes n panicked = Unit

-- The bytes behind the arguments are no more than `n`.
abbrev pub Leaves : ℕ → Bulks → Type 0
Leaves n more = Unit
Leaves n (stop e) = Unit
Leaves n panic = Unit
Leaves n (done args rest) = length rest ≤ n

pub length-drop : (n : ℕ) (s : Bytes) → length (drop n s) ≡ length s - n
length-drop zero s = omega arith
length-drop (suc n) [] = omega arith
length-drop (suc n) (c ∷ s) = omega (arith, length-drop n s)

pub index_crlf-bound : (s : Bytes) (i : ℕ) → index_crlf s ≡ some i → i + 2 ≤ length s
unfolding index_crlf
index_crlf-bound [] i e = cc
index_crlf-bound (c ∷ []) i e = cc
index_crlf-bound (c ∷ d ∷ s) i e = elim (Option-cases (index_crlf (d ∷ s))) [
  | inl e' ↦ ground (arith, e')
  | inr (k, e') ↦ ground (arith, e', index_crlf-bound (d ∷ s) k e')
]

words_outcome-Consumes :
    (words : List Bytes) (n k : ℕ) → 0 < k → k ≤ n → Consumes n (words_outcome words k)
unfolding words_outcome
words_outcome-Consumes [] n k h l = (h, l)
words_outcome-Consumes (name ∷ args) n k h l = (h, l)

pub Leaves-mono : (m n : ℕ) (b : Bulks) → m ≤ n → Leaves m b → Leaves n b
Leaves-mono m n more l h = tt
Leaves-mono m n (stop e) l h = tt
Leaves-mono m n panic l h = tt
Leaves-mono m n (done args rest) l h = omega arith

header-Leaves :
    (rest : Bytes) (next : ℤ → Bytes → Bulks)
    → ((blen : ℤ) (body : Bytes)
        → length body ≤ length rest
        → Leaves (length rest) (next blen body))
    → Leaves (length rest) (parse_header rest next)
unfolding parse_header
header-Leaves [] next h = tt
header-Leaves (c ∷ s) next h = elim (Bool-cases (c == b'$')) [
  | inl e₁ ↦ elim (Option-cases (index_crlf (c ∷ s))) [
    | inl e₂ ↦ rw (e₁, e₂) tt
    | inr (len_end, e₂) ↦ elim (Option-cases (scan_int (drop 1 (take len_end (c ∷ s))))) [
      | inl e₃ ↦ rw (e₁, e₂, e₃) tt
      | inr (blen, e₃) ↦
          rw (e₁, e₂, e₃)
            (h blen (drop (len_end + 2) (c ∷ s)) (omega (arith, length-drop (len_end + 2) (c ∷ s))))
    ]
  ]
  | inr e₁ ↦ rw e₁ tt
]

body-shorter :
    (n : ℕ) (body arg rest : Bytes)
    → parse_bulk_body n body ≡ some (arg, rest)
    → length rest ≤ length body
unfolding parse_bulk_body
body-shorter n body arg rest e = ground (arith, length-drop (n + 2) body)

parse_bulk-Leaves :
    (blen : ℤ) (body : Bytes) (next : Bytes → Bytes → Bulks)
    → ((arg rest : Bytes) → Leaves (length rest) (next arg rest))
    → Leaves (length body) (parse_bulk blen body next)
unfolding parse_bulk
parse_bulk-Leaves (pos n) body next h = elim (Bool-cases (ltb max_bulk_length n)) [
  | inl e₁ ↦ rw e₁ tt
  | inr e₁ ↦ elim (Option-cases (parse_bulk_body n body)) [
    | inl e₂ ↦ rw (e₁, e₂) tt
    | inr ((arg, rest), e₂) ↦
        rw (e₁, e₂)
          (Leaves-mono (length rest) (length body) (next arg rest) (body-shorter n body arg rest e₂)
            (h arg rest))
  ]
]
parse_bulk-Leaves (negsuc zero) body next h = h [] body
parse_bulk-Leaves (negsuc (suc n)) body next h = tt

pub parse_bulks-Leaves :
    (count : ℕ) (rest : Bytes) (args : List Bytes)
    → Leaves (length rest) (parse_bulks count rest args)
unfolding parse_bulks
parse_bulks-Leaves zero rest args = omega arith
parse_bulks-Leaves (suc count) rest args = header-Leaves rest _ λ blen body l.
    Leaves-mono (length body) (length rest) _ l
      (parse_bulk-Leaves blen body _ λ arg rest'. parse_bulks-Leaves count rest' (args ++ arg ∷ []))

bulks_outcome-Consumes :
    (input : Bytes) (n : ℕ) (b : Bulks)
    → n < length input
    → Leaves n b
    → Consumes (length input) (bulks_outcome input b)
unfolding bulks_outcome
bulks_outcome-Consumes input n more l h = tt
bulks_outcome-Consumes input n (stop e) l h = tt
bulks_outcome-Consumes input n panic l h = tt
bulks_outcome-Consumes input n (done args rest) l h =
    words_outcome-Consumes args (length input) (length input - length rest) (omega arith)
      (omega arith)

array-Consumes :
    (input : Bytes) (idx : ℕ) (count : ℤ)
    → index_crlf input ≡ some idx
    → scan_int (drop 1 (take idx input)) ≡ some count
    → Consumes (length input) (parse_resp_array input)
unfolding parse_resp_array
array-Consumes input idx (negsuc n) e₁ e₂ = rw (parse_resp_array, e₁, e₂) tt
array-Consumes input idx (pos n) e₁ e₂ = elim (Bool-cases (ltb max_args n)) [
  | inl e₃ ↦ rw (parse_resp_array, e₁, e₂, e₃) tt
  | inr e₃ ↦
      rw (parse_resp_array, e₁, e₂, e₃)
        (bulks_outcome-Consumes input (length (drop (idx + 2) input)) _
          (omega (arith, length-drop (idx + 2) input, index_crlf-bound input idx e₁))
          (parse_bulks-Leaves n (drop (idx + 2) input) []))
]

parse_resp_array-Consumes : (input : Bytes) → Consumes (length input) (parse_resp_array input)
unfolding parse_resp_array
parse_resp_array-Consumes input = elim (Option-cases (index_crlf input)) [
  | inl e₁ ↦ rw (parse_resp_array, e₁) tt
  | inr (idx, e₁) ↦ elim (Option-cases (scan_int (drop 1 (take idx input)))) [
    | inl e₂ ↦ rw (parse_resp_array, e₁, e₂) tt
    | inr (count, e₂) ↦ array-Consumes input idx count e₁ e₂
  ]
]

parse_inline-Consumes : (input : Bytes) → Consumes (length input) (parse_inline input)
unfolding parse_inline
parse_inline-Consumes input = elim (Option-cases (index_crlf input)) [
  | inl e₁ ↦ rw (parse_inline, e₁) tt
  | inr (idx, e₁) ↦ elim (Bool-cases (ltb max_inline_bytes idx)) [
    | inl e₂ ↦ rw (parse_inline, e₁, e₂) tt
    | inr e₂ ↦
        rw (parse_inline, e₁, e₂)
          (words_outcome-Consumes (fields (trim (take idx input))) (length input) (idx + 2)
            (omega arith) (index_crlf-bound input idx e₁))
  ]
]

-- Whatever `ParseCommandFromBytes` is given, a command or a skipped line that it returns has
-- consumed at least one byte and no more than the input holds.
pub parse_command_from_bytes-Consumes :
    (input : Bytes) → Consumes (length input) (parse_command_from_bytes input)
unfolding parse_command_from_bytes
parse_command_from_bytes-Consumes [] = tt
parse_command_from_bytes-Consumes (c ∷ s) = elim (Bool-cases (c == b'*')) [
  | inl e ↦ rw e (parse_resp_array-Consumes (c ∷ s))
  | inr e ↦ rw e (parse_inline-Consumes (c ∷ s))
]
