-- ===== src/Protocol/RoundTrip/Streamed.antt =====
-- The round trip of `WriteCommand` and `ParseCommand` of pkg/protocol.
use fast_and_accurate_store.Base.{
  ℕ, suc, ◌+◌, ◌^◌, ◌<◌, ◌≤◌, ◌≡◌, refl, sym, ap, ap₂, ◌∙◌, true, false, some, List, [], ◌∷◌, ◌++◌,
  append_assoc, append-nil, Bytes, arith, ltb, length, length-append, take, drop, take_append,
  drop_append,
}
use fast_and_accurate_store.Base.Int.{pos}
use fast_and_accurate_store.Protocol.Text.{is_space, decimal, trim}
use fast_and_accurate_store.Protocol.Decimal.{scan_int-decimal, trim-crlf}
use fast_and_accurate_store.Protocol.Writer.{write_bulks, write_command}
use fast_and_accurate_store.Protocol.Command.{max_args, max_bulk_length, make_command}
use fast_and_accurate_store.Protocol.Stream.{
  Reading, command, read_line, scan_marked, ends_in_crlf, read_bulk, words_reading, read_arg,
  read_args, read_array, parse_command,
}
use fast_and_accurate_store.Protocol.RoundTrip.Lines.{
  read_line-line, drop-line, ltb-ge, decimal-NoSpace, BulksFit, write_bulks-cons,
  write_command-append,
}

scan_marked-decimal : (mark n : ℕ) → n < 2 ^ 63 → scan_marked mark (mark ∷ decimal n) ≡ some (pos n)
unfolding scan_marked
scan_marked-decimal mark n l = ground (arith, scan_int-decimal n l)

-- The header of a count, behind its mark.
abbrev header : ℕ → ℕ → Bytes
header mark n = mark ∷ (decimal n ++ 13 ∷ 10 ∷ [])

trim-header : (mark n : ℕ) → is_space mark ≡ false → trim (header mark n) ≡ mark ∷ decimal n
trim-header mark n h = trim-crlf mark (decimal n) (h, decimal-NoSpace n)

read_line-header :
    (mark n : ℕ) (t : Bytes)
    → is_space mark ≡ false
    → read_line (mark ∷ (decimal n ++ 13 ∷ 10 ∷ t)) ≡ some (header mark n, t)
read_line-header mark n t h = read_line-line (mark ∷ decimal n) t (h, decimal-NoSpace n)

drop-bulk : (arg t : Bytes) → drop (length arg) (arg ++ t) ≡ t
drop-bulk arg t = drop_append arg t

read_bulk-some :
    (n : ℕ) (input : Bytes) (next : Bytes → Bytes → Reading)
    → ltb (length input) (n + 2) ≡ false
    → ends_in_crlf (drop n input) ≡ true
    → read_bulk n input next ≡ next (take n input) (drop (n + 2) input)
unfolding read_bulk
read_bulk-some n [] next e₁ e₂ = absurd (ground arith)
read_bulk-some n (c ∷ s) next e₁ e₂ = rw (e₁, e₂) refl

read_bulk-line :
    (arg t : Bytes) (next : Bytes → Bytes → Reading)
    → read_bulk (length arg) (arg ++ 13 ∷ 10 ∷ t) next ≡ next arg t
read_bulk-line arg t next =
    read_bulk-some (length arg) (arg ++ 13 ∷ 10 ∷ t) next
      (ground (arith, length-append arg (13 ∷ 10 ∷ t)))
      (rw (drop_append arg) (unfold ends_in_crlf in refl))
    ∙ ap₂ next (take_append arg (13 ∷ 10 ∷ t)) (drop-line arg t)

read_arg-step :
    (input line left : Bytes) (n : ℕ) (next : Bytes → Bytes → Reading)
    → read_line input ≡ some (line, left)
    → scan_marked b'$' (trim line) ≡ some (pos n)
    → ltb max_bulk_length n ≡ false
    → read_arg input next ≡ read_bulk n left next
unfolding read_arg
read_arg-step input line left n next e₁ e₂ e₃ = rw (read_arg, e₁, e₂, e₃) refl

read_arg-bulk :
    (arg rest : Bytes) (next : Bytes → Bytes → Reading)
    → length arg ≤ max_bulk_length
    → read_arg (b'$' ∷ (decimal (length arg) ++ 13 ∷ 10 ∷ (arg ++ 13 ∷ 10 ∷ rest))) next
      ≡ next arg rest
read_arg-bulk arg rest next h =
    read_arg-step (b'$' ∷ (decimal (length arg) ++ 13 ∷ 10 ∷ (arg ++ 13 ∷ 10 ∷ rest)))
      (header b'$' (length arg)) (arg ++ 13 ∷ 10 ∷ rest) (length arg) next
      (read_line-header b'$' (length arg) (arg ++ 13 ∷ 10 ∷ rest) (unfold is_space in refl))
      (ap (scan_marked b'$') (trim-header b'$' (length arg) (unfold is_space in refl))
        ∙ scan_marked-decimal b'$' (length arg) (omega arith))
      (ltb-ge h)
    ∙ read_bulk-line arg rest next

read_args-suc :
    (count : ℕ) (input : Bytes) (args : List Bytes)
    → read_args (suc count) input args
      ≡ read_arg input (λ arg rest. read_args count rest (args ++ arg ∷ []))
unfolding read_args
read_args-suc count input args = refl

read_args-zero :
    (input : Bytes) (args : List Bytes) → read_args 0 input args ≡ words_reading args input
unfolding read_args
read_args-zero input args = refl

write_bulks-nil : (rest : Bytes) → write_bulks [] ++ rest ≡ rest
unfolding write_bulks
write_bulks-nil rest = refl

read_args-write_bulks :
    (args : List Bytes) (rest : Bytes) (before : List Bytes)
    → BulksFit args
    → read_args (length args) (write_bulks args ++ rest) before
      ≡ words_reading (before ++ args) rest
read_args-write_bulks [] rest before h =
    ap (λ input. read_args 0 input before) (write_bulks-nil rest)
    ∙ read_args-zero rest before
    ∙ ap (λ all. words_reading all rest) (sym (append-nil before))
read_args-write_bulks (arg ∷ args) rest before h =
    ap (λ input. read_args (suc (length args)) input before) (write_bulks-cons arg args rest)
    ∙ read_args-suc (length args) _ before
    ∙ read_arg-bulk arg (write_bulks args ++ rest) _ h.0
    ∙ read_args-write_bulks args rest (before ++ arg ∷ []) h.1
    ∙ ap (λ all. words_reading all rest) (append_assoc before (arg ∷ []) args)

read_array-step :
    (line left : Bytes) (n : ℕ)
    → scan_marked b'*' line ≡ some (pos n)
    → ltb max_args n ≡ false
    → read_array line left ≡ read_args n left []
unfolding read_array
read_array-step line left n e₁ e₂ = rw (read_array, e₁, e₂) refl

pub parse_command-array :
    (input line s left : Bytes)
    → read_line input ≡ some (line, left)
    → trim line ≡ b'*' ∷ s
    → parse_command input ≡ read_array (b'*' ∷ s) left
unfolding parse_command
parse_command-array input line s left e₁ e₂ = rw (parse_command, e₁, e₂) refl

words_reading-cons :
    (name : Bytes) (args : List Bytes) (rest : Bytes)
    → words_reading (name ∷ args) rest ≡ command (make_command name args) rest
unfolding words_reading
words_reading-cons name args rest = refl

-- `ParseCommand` reads a command of at most 1024 words of at most 512 KB each, written by
-- `WriteCommand`, off the front of any input: it returns the command, its name in upper case, and
-- leaves exactly what stands behind it.
pub parse_command-write_command :
    (name : Bytes) (args : List Bytes) (rest : Bytes)
    → length (name ∷ args) ≤ max_args
    → BulksFit (name ∷ args)
    → parse_command (write_command (name ∷ args) ++ rest) ≡ command (make_command name args) rest
parse_command-write_command name args rest l h =
    ap parse_command (write_command-append (name ∷ args) rest)
    ∙ parse_command-array _ (header b'*' count) (decimal count) (write_bulks (name ∷ args) ++ rest)
        (read_line-header b'*' count (write_bulks (name ∷ args) ++ rest) (unfold is_space in refl))
        (trim-header b'*' count (unfold is_space in refl))
    ∙ read_array-step (b'*' ∷ decimal count) (write_bulks (name ∷ args) ++ rest) count
        (scan_marked-decimal b'*' count (omega arith)) (ltb-ge l)
    ∙ read_args-write_bulks (name ∷ args) rest [] h
    ∙ words_reading-cons name args rest
  where
    count : ℕ
    count = length (name ∷ args)
