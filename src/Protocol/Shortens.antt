-- ===== src/Protocol/Shortens.antt =====
-- What `ParseCommand` of pkg/protocol/parser.go leaves to read.
use fast_and_accurate_store.Base.{
  ℕ, zero, suc, ◌+◌, ◌<◌, ◌≤◌, Bool, true, false, Bool-cases, inl, inr, Option, none, some, List,
  [], ◌∷◌, ◌++◌, Bytes, arith, ltb, ◌==◌, if◌then◌else◌, length, take, drop,
}
use fast_and_accurate_store.Base.Int.{ℤ, pos, negsuc}
use fast_and_accurate_store.Protocol.Consumed.{length-drop}
use fast_and_accurate_store.Protocol.Text.{trim, fields}
use fast_and_accurate_store.Protocol.Command.{
  Command, ParseError, max_args, max_bulk_length, bad_array_length, too_many_arguments,
  bad_bulk_length, bulk_too_large,
}
use fast_and_accurate_store.Protocol.Stream.{
  Reading, command, nothing, eof, unexpected_eof, failed, panicked, read_line, scan_marked,
  ends_in_crlf, read_bulk, words_reading, read_arg, read_args, read_array, read_words,
  parse_command,
}

-- What is left is shorter than `n`.
pub data Shortens (n : ℕ) : Reading → Type 0 where
  shorter_command : {cmd : Command} {left : Bytes} → length left < n → Shortens n (command cmd left)
  shorter_nothing : {left : Bytes} → length left < n → Shortens n (nothing left)
  at_eof : Shortens n eof
  at_unexpected : Shortens n unexpected_eof
  at_error : {e : ParseError} → Shortens n (failed e)
  at_panic : Shortens n panicked

if_Shortens :
    (n : ℕ) (b : Bool) (x y : Reading)
    → Shortens n x
    → Shortens n y
    → Shortens n (if b then x else y)
if_Shortens n true x y h h' = h
if_Shortens n false x y h h' = h'

abbrev LineWithin : ℕ → Option (Bytes × Bytes) → Type 0
LineWithin n none = Unit
LineWithin n (some (line, left)) = length left < n

LineWithin-suc :
    (c n : ℕ) (o : Option (Bytes × Bytes))
    → LineWithin n o
    → LineWithin (suc n) (elim o [ none ↦ none | some (line, left) ↦ some (c ∷ line, left) ])
LineWithin-suc c n none h = tt
LineWithin-suc c n (some (line, left)) h = omega arith

read_line-LineWithin : (s : Bytes) → LineWithin (length s) (read_line s)
unfolding read_line
read_line-LineWithin [] = tt
read_line-LineWithin (c ∷ s) = elim (Bool-cases (c == 10)) [
  | inl e ↦ rw e (omega arith)
  | inr e ↦ rw e (LineWithin-suc c (length s) (read_line s) (read_line-LineWithin s))
]

words_reading-Shortens :
    (words : List Bytes) (left : Bytes) (n : ℕ)
    → length left < n
    → Shortens n (words_reading words left)
unfolding words_reading
words_reading-Shortens [] left n h = shorter_nothing h
words_reading-Shortens (name ∷ args) left n h = shorter_command h

read_bulk-Shortens :
    (m n : ℕ) (input : Bytes) (next : Bytes → Bytes → Reading)
    → length input < n
    → ((arg rest : Bytes) → length rest < n → Shortens n (next arg rest))
    → Shortens n (read_bulk m input next)
unfolding read_bulk
read_bulk-Shortens m n [] next h k = at_eof
read_bulk-Shortens m n (c ∷ s) next h k =
    if_Shortens n (ltb (length (c ∷ s)) (m + 2)) _ _ at_unexpected (
      if_Shortens n (ends_in_crlf (drop m (c ∷ s))) _ _
        (k (take m (c ∷ s)) (drop (m + 2) (c ∷ s)) (omega (arith, length-drop (m + 2) (c ∷ s))))
        at_error)

-- An argument behind its header
header-Shortens :
    (o : Option ℤ) (n : ℕ) (left : Bytes) (next : Bytes → Bytes → Reading)
    → length left < n
    → ((arg rest : Bytes) → length rest < n → Shortens n (next arg rest))
    → Shortens n (elim o [
      | none ↦ failed bad_bulk_length
      | some z ↦ elim z [
        | pos m ↦ if ltb max_bulk_length m then failed bulk_too_large else read_bulk m left next
        | negsuc zero ↦ next [] left
        | negsuc (suc m) ↦ panicked
      ]
    ])
header-Shortens none n left next h k = at_error
header-Shortens (some (pos m)) n left next h k =
    if_Shortens n (ltb max_bulk_length m) _ _ at_error (read_bulk-Shortens m n left next h k)
header-Shortens (some (negsuc zero)) n left next h k = k [] left h
header-Shortens (some (negsuc (suc m))) n left next h k = at_panic

line-Shortens :
    (o : Option (Bytes × Bytes)) (n : ℕ) (rest : Bytes → Bytes → Reading)
    → LineWithin n o
    → ((line left : Bytes) → length left < n → Shortens n (rest line left))
    → Shortens n (elim o [ none ↦ eof | some (line, left) ↦ rest line left ])
line-Shortens none n rest h k = at_eof
line-Shortens (some (line, left)) n rest h k = k line left h

LineWithin-mono : (m n : ℕ) (o : Option (Bytes × Bytes)) → m ≤ n → LineWithin m o → LineWithin n o
LineWithin-mono m n none l h = tt
LineWithin-mono m n (some (line, left)) l h = omega arith

read_arg-Shortens :
    (n : ℕ) (input : Bytes) (next : Bytes → Bytes → Reading)
    → length input < n
    → ((arg rest : Bytes) → length rest < n → Shortens n (next arg rest))
    → Shortens n (read_arg input next)
unfolding read_arg
read_arg-Shortens n input next h k =
    line-Shortens (read_line input) n _
      (LineWithin-mono (length input) n (read_line input) (omega arith)
        (read_line-LineWithin input))
      (λ line left l. header-Shortens (scan_marked b'$' (trim line)) n left next l k)

read_args-Shortens :
    (count n : ℕ) (input : Bytes) (args : List Bytes)
    → length input < n
    → Shortens n (read_args count input args)
unfolding read_args
read_args-Shortens zero n input args h = words_reading-Shortens args input n h
read_args-Shortens (suc count) n input args h =
    read_arg-Shortens n input _ h λ arg rest l. read_args-Shortens count n rest (args ++ arg ∷ []) l

array-Shortens :
    (o : Option ℤ) (n : ℕ) (left : Bytes)
    → length left < n
    → Shortens n (elim o [
      | none ↦ failed bad_array_length
      | some z ↦ elim z [
        | pos m ↦ if ltb max_args m then failed too_many_arguments else read_args m left []
        | negsuc m ↦ panicked
      ]
    ])
array-Shortens none n left h = at_error
array-Shortens (some (pos m)) n left h =
    if_Shortens n (ltb max_args m) _ _ at_error (read_args-Shortens m n left [] h)
array-Shortens (some (negsuc m)) n left h = at_panic

read_words-Shortens :
    (line left : Bytes) (n : ℕ) → length left < n → Shortens n (read_words line left)
unfolding read_words read_array
read_words-Shortens [] left n h = shorter_nothing h
read_words-Shortens (c ∷ line) left n h =
    if_Shortens n (c == b'*') _ _ (array-Shortens (scan_marked b'*' (c ∷ line)) n left h)
      (words_reading-Shortens (fields (c ∷ line)) left n h)

-- A command or a line without one takes a byte at least.
pub parse_command-Shortens : (input : Bytes) → Shortens (length input) (parse_command input)
unfolding parse_command
parse_command-Shortens input =
    line-Shortens (read_line input) (length input) _ (read_line-LineWithin input)
      (λ line left l. read_words-Shortens (trim line) left (length input) l)
