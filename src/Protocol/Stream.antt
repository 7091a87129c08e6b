-- ===== src/Protocol/Stream.antt =====
-- `ParseCommand` of pkg/protocol/parser.go, the parser of connections, of the AOF and of replicas.
-- The reader is the list of the bytes that are still to come, up to the end of the file.
use fast_and_accurate_store.Base.{
  ℕ, zero, suc, ◌+◌, Bool, false, ◌&&◌, Option, none, some, List, [], ◌∷◌, ◌++◌, Bytes, ltb, ◌==◌,
  if◌then◌else◌, length, take, drop,
}
use fast_and_accurate_store.Base.Int.{ℤ, pos, negsuc}
use fast_and_accurate_store.Protocol.Text.{trim, fields, scan_int}
use fast_and_accurate_store.Protocol.Command.{
  Command, max_args, max_bulk_length, ParseError, bad_array_length, too_many_arguments,
  bad_bulk_length, bulk_too_large, bad_termination, make_command,
}

-- A command or `nil, nil`, each with what is left to read; the end of the file; its end inside a
-- bulk; an error of the parser; a run-time panic.
pub data Reading : Type 0 where
  command : Command → Bytes → Reading
  nothing : Bytes → Reading
  eof : Reading
  unexpected_eof : Reading
  failed : ParseError → Reading
  panicked : Reading

-- reader.ReadString('\n'): the line with its newline, or none at the end of the file.
unfoldable pub read_line : Bytes → Option (Bytes × Bytes)
read_line [] = none
read_line (c ∷ s) =
    let rest = read_line s in
    if c == 10
    then some (c ∷ [], s)
    else elim rest [ none ↦ none | some (line, left) ↦ some (c ∷ line, left) ]

-- Sscanf(line, "<mark>%d", &n)
unfoldable pub scan_marked : ℕ → Bytes → Option ℤ
scan_marked mark [] = none
scan_marked mark (c ∷ s) = if c == mark then scan_int s else none

unfoldable pub ends_in_crlf : Bytes → Bool
ends_in_crlf [] = false
ends_in_crlf (c ∷ []) = false
ends_in_crlf (c ∷ d ∷ s) = c == 13 && d == 10

-- io.ReadFull of `n + 2` bytes and the check of the last two.
unfoldable pub read_bulk : ℕ → Bytes → (Bytes → Bytes → Reading) → Reading
unfolding ends_in_crlf
read_bulk n [] next = eof
read_bulk n (c ∷ s) next =
    let input = c ∷ s in
    if ltb (length input) (n + 2)
    then unexpected_eof
    else if ends_in_crlf (drop n input)
    then next (take n input) (drop (n + 2) input)
    else failed bad_termination

unfoldable pub words_reading : List Bytes → Bytes → Reading
words_reading [] rest = nothing rest
words_reading (name ∷ args) rest = command (make_command name args) rest

-- One argument. A length below -1 makes `make` or the check of the last two bytes panic.
unfoldable pub read_arg : Bytes → (Bytes → Bytes → Reading) → Reading
unfolding read_line scan_marked read_bulk
read_arg input next = elim (read_line input) [
  | none ↦ eof
  | some (line, left) ↦ elim (scan_marked b'$' (trim line)) [
    | none ↦ failed bad_bulk_length
    | some n ↦ elim n [
      | pos m ↦ if ltb max_bulk_length m then failed bulk_too_large else read_bulk m left next
      | negsuc zero ↦ next [] left
      | negsuc (suc m) ↦ panicked
    ]
  ]
]

-- The loop over the arguments, with `count` rounds left.
unfoldable pub read_args : ℕ → Bytes → List Bytes → Reading
unfolding read_arg words_reading
read_args zero input args = words_reading args input
read_args (suc count) input args =
    read_arg input (λ arg rest. read_args count rest (args ++ arg ∷ []))

-- A line that begins with `*`. A negative count makes `make` panic.
unfoldable pub read_array : Bytes → Bytes → Reading
unfolding scan_marked read_args
read_array line left = elim (scan_marked b'*' line) [
  | none ↦ failed bad_array_length
  | some n ↦ elim n [
    | pos m ↦ if ltb max_args m then failed too_many_arguments else read_args m left []
    | negsuc m ↦ panicked
  ]
]

unfoldable pub read_words : Bytes → Bytes → Reading
unfolding read_array words_reading
read_words [] left = nothing left
read_words (c ∷ line) left =
    if c == b'*' then read_array (c ∷ line) left else words_reading (fields (c ∷ line)) left

-- `ParseCommand`
unfoldable pub parse_command : Bytes → Reading
unfolding read_line read_words
parse_command input = elim (read_line input) [
  | none ↦ eof
  | some (line, left) ↦ read_words (trim line) left
]
