-- ===== src/Protocol/Buffer.antt =====
-- `ParseCommandFromBytes` of pkg/protocol/parser.go, the parser of the event loop.
use fast_and_accurate_store.Base.{
  ℕ, zero, suc, ◌+◌, ◌-◌, Option, none, some, List, [], ◌∷◌, ◌++◌, Bytes, ltb, ◌==◌, if◌then◌else◌,
  length, take, drop,
}
use fast_and_accurate_store.Base.Int.{ℤ, pos, negsuc}
use fast_and_accurate_store.Protocol.Text.{trim, fields, scan_int}
use fast_and_accurate_store.Protocol.Command.{
  Command, max_args, max_bulk_length, max_inline_bytes, ParseError, bad_array_length,
  too_many_arguments, bad_bulk_length, bulk_too_large, inline_too_long, make_command,
}

-- `nil, 0, nil`; `nil, n, nil`; a command with the bytes consumed; an error; a run-time panic.
pub data Outcome : Type 0 where
  incomplete : Outcome
  skipped : ℕ → Outcome
  parsed : Command → ℕ → Outcome
  failed : ParseError → Outcome
  panicked : Outcome

-- `indexCRLF`
unfoldable pub index_crlf : Bytes → Option ℕ
index_crlf [] = none
index_crlf (c ∷ []) = none
index_crlf (c ∷ d ∷ s) =
    let rest = index_crlf (d ∷ s) in
    if c == 13
    then if d == 10 then some 0 else elim rest [ none ↦ none | some i ↦ some (suc i) ]
    else elim rest [ none ↦ none | some i ↦ some (suc i) ]

-- What both parsers make of the words of a line of `n` bytes.
unfoldable pub words_outcome : List Bytes → ℕ → Outcome
words_outcome [] n = skipped n
words_outcome (name ∷ args) n = parsed (make_command name args) n

-- `parseInline`; a line without words is skipped, whether it is empty or not.
unfoldable pub parse_inline : Bytes → Outcome
unfolding index_crlf words_outcome
parse_inline input = elim (index_crlf input) [
  | none ↦ incomplete
  | some idx ↦
      if ltb max_inline_bytes idx
      then failed inline_too_long
      else words_outcome (fields (trim (take idx input))) (idx + 2)
]

-- A bulk of `n` bytes behind its header, or none while it is not all there.
unfoldable pub parse_bulk_body : ℕ → Bytes → Option (Bytes × Bytes)
parse_bulk_body n rest =
    if ltb (length rest) (n + 2) then none else some (take n rest, drop (n + 2) rest)

-- How the loop over the arguments ends: not all there, an error, a panic, or the arguments with the
-- bytes behind them.
pub data Bulks : Type 0 where
  more : Bulks
  stop : ParseError → Bulks
  panic : Bulks
  done : List Bytes → Bytes → Bulks

-- The header of one argument: its length, and what stands behind it.
unfoldable pub parse_header : Bytes → (ℤ → Bytes → Bulks) → Bulks
unfolding index_crlf
parse_header [] next = more
parse_header (c ∷ s) next =
    if c == b'$'
    then elim (index_crlf (c ∷ s)) [
      | none ↦ more
      | some len_end ↦ elim (scan_int (drop 1 (take len_end (c ∷ s)))) [
        | none ↦ stop bad_bulk_length
        | some blen ↦ next blen (drop (len_end + 2) (c ∷ s))
      ]
    ]
    else more

-- One argument behind its header. A length below -1 makes the slice expression
-- `data[pos:pos+blen]` panic.
unfoldable pub parse_bulk : ℤ → Bytes → (Bytes → Bytes → Bulks) → Bulks
unfolding parse_bulk_body
parse_bulk (pos n) body next =
    if ltb max_bulk_length n
    then stop bulk_too_large
    else elim (parse_bulk_body n body) [ none ↦ more | some (arg, rest) ↦ next arg rest ]
parse_bulk (negsuc zero) body next = next [] body
parse_bulk (negsuc (suc n)) body next = panic

-- The loop of `parseRESPArray`, with `count` rounds left.
unfoldable pub parse_bulks : ℕ → Bytes → List Bytes → Bulks
unfolding parse_header parse_bulk
parse_bulks zero rest args = done args rest
parse_bulks (suc count) rest args =
    parse_header rest
      λ blen body. parse_bulk blen body λ arg rest'. parse_bulks count rest' (args ++ arg ∷ [])

unfoldable pub bulks_outcome : Bytes → Bulks → Outcome
bulks_outcome input more = incomplete
bulks_outcome input (stop e) = failed e
bulks_outcome input panic = panicked
bulks_outcome input (done args rest) = words_outcome args (length input - length rest)

-- `parseRESPArray`. A negative count makes `make([]string, 0, count)` panic.
unfoldable pub parse_resp_array : Bytes → Outcome
unfolding index_crlf parse_bulks bulks_outcome words_outcome
parse_resp_array input = elim (index_crlf input) [
  | none ↦ incomplete
  | some idx ↦ elim (scan_int (drop 1 (take idx input))) [
    | none ↦ failed bad_array_length
    | some count ↦ elim count [
      | pos n ↦
          if ltb max_args n
          then failed too_many_arguments
          else bulks_outcome input (parse_bulks n (drop (idx + 2) input) [])
      | negsuc n ↦ panicked
    ]
  ]
]

-- `ParseCommandFromBytes`
unfoldable pub parse_command_from_bytes : Bytes → Outcome
unfolding parse_resp_array parse_inline
parse_command_from_bytes [] = incomplete
parse_command_from_bytes (c ∷ s) =
    if c == b'*' then parse_resp_array (c ∷ s) else parse_inline (c ∷ s)
