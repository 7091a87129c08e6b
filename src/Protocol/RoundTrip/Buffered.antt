-- ===== src/Protocol/RoundTrip/Buffered.antt =====
-- The round trip of `WriteCommand` and `ParseCommandFromBytes` of pkg/protocol.
use fast_and_accurate_store.Base.{
  ℕ, suc, ◌+◌, ◌-◌, ◌^◌, ◌<◌, ◌≤◌, ◌≡◌, refl, sym, ap, ◌∙◌, false, some, List, [], ◌∷◌, ◌++◌,
  append_assoc, append-nil, Bytes, arith, ltb, length, length-append, take, drop, take_append,
}
use fast_and_accurate_store.Base.Int.{ℤ, pos}
use fast_and_accurate_store.Protocol.Text.{is_space, decimal, scan_int}
use fast_and_accurate_store.Protocol.Decimal.{scan_int-decimal, NoSpace}
use fast_and_accurate_store.Protocol.Writer.{write_bulks, write_command}
use fast_and_accurate_store.Protocol.Command.{max_args, max_bulk_length, make_command}
use fast_and_accurate_store.Protocol.Buffer.{
  parsed, index_crlf, parse_bulk_body, Bulks, done, parse_header, parse_bulks, bulks_outcome,
  parse_resp_array, parse_command_from_bytes, words_outcome,
}
use fast_and_accurate_store.Protocol.RoundTrip.Lines.{
  index_crlf-line, drop-line, ltb-ge, decimal-NoSpace, BulksFit, write_bulks-cons,
  write_command-append,
}

marked-NoSpace : (mark n : ℕ) → is_space mark ≡ false → NoSpace (mark ∷ decimal n)
marked-NoSpace mark n h = (h, decimal-NoSpace n)

parse_header-line :
    (n : ℕ) (t : Bytes) (next : ℤ → Bytes → Bulks)
    → n < 2 ^ 63
    → parse_header (b'$' ∷ (decimal n ++ 13 ∷ 10 ∷ t)) next ≡ next (pos n) t
unfolding parse_header
parse_header-line n t next l =
    rw
      (
        index_crlf-line (b'$' ∷ decimal n) t (marked-NoSpace b'$' n (unfold is_space in refl)),
        take_append (decimal n),
        scan_int-decimal n l,
        drop-line (b'$' ∷ decimal n) t,
      )
      refl

fits_not_short : (arg t : Bytes) → ltb (length (arg ++ 13 ∷ 10 ∷ t)) (length arg + 2) ≡ false
fits_not_short arg t = ground (arith, length-append arg (13 ∷ 10 ∷ t))

parse_bulk_body-line :
    (arg t : Bytes) → parse_bulk_body (length arg) (arg ++ 13 ∷ 10 ∷ t) ≡ some (arg, t)
unfolding parse_bulk_body
parse_bulk_body-line arg t = rw (fits_not_short arg t, take_append arg, drop-line arg t) refl

parse_bulks-step :
    (count : ℕ) (arg rest : Bytes) (before : List Bytes)
    → length arg ≤ max_bulk_length
    → parse_bulks
        (suc count)
        (b'$' ∷ (decimal (length arg) ++ 13 ∷ 10 ∷ (arg ++ 13 ∷ 10 ∷ rest)))
        before
      ≡ parse_bulks count rest (before ++ arg ∷ [])
unfolding parse_bulks
parse_bulks-step count arg rest before h =
    rw
      (
        parse_header-line (length arg) (arg ++ 13 ∷ 10 ∷ rest) _ (omega arith),
        ltb-ge h,
        parse_bulk_body-line arg rest,
      )
      refl

parse_bulks-write_bulks :
    (args : List Bytes) (rest : Bytes) (before : List Bytes)
    → BulksFit args
    → parse_bulks (length args) (write_bulks args ++ rest) before ≡ done (before ++ args) rest
parse_bulks-write_bulks [] rest before h =
    unfold parse_bulks in unfold write_bulks in rw (append-nil before) refl
parse_bulks-write_bulks (arg ∷ args) rest before h =
    ap (λ input. parse_bulks (suc (length args)) input before) (write_bulks-cons arg args rest)
    ∙ parse_bulks-step (length args) arg (write_bulks args ++ rest) before h.0
    ∙ parse_bulks-write_bulks args rest (before ++ arg ∷ []) h.1
    ∙ ap (λ all. done all rest) (append_assoc before (arg ∷ []) args)

parse_resp_array-step :
    (input : Bytes) (idx n : ℕ)
    → index_crlf input ≡ some idx
    → scan_int (drop 1 (take idx input)) ≡ some (pos n)
    → ltb max_args n ≡ false
    → parse_resp_array input ≡ bulks_outcome input (parse_bulks n (drop (idx + 2) input) [])
unfolding parse_resp_array
parse_resp_array-step input idx n e₁ e₂ e₃ = rw (parse_resp_array, e₁, e₂, e₃) refl

parse_resp_array-line :
    (args : List Bytes) (rest : Bytes)
    → length args ≤ max_args
    → BulksFit args
    → parse_resp_array (b'*' ∷ (decimal (length args) ++ 13 ∷ 10 ∷ (write_bulks args ++ rest)))
      ≡ bulks_outcome
          (b'*' ∷ (decimal (length args) ++ 13 ∷ 10 ∷ (write_bulks args ++ rest)))
          (done args rest)
parse_resp_array-line args rest l h =
    parse_resp_array-step (b'*' ∷ (decimal (length args) ++ 13 ∷ 10 ∷ (write_bulks args ++ rest)))
      (length (b'*' ∷ decimal (length args))) (length args)
      (index_crlf-line (b'*' ∷ decimal (length args)) (write_bulks args ++ rest)
        (marked-NoSpace b'*' (length args) (unfold is_space in refl)))
      (rw (take_append (decimal (length args))) (scan_int-decimal (length args) (omega arith)))
      (ltb-ge l)
    ∙ ap (bulks_outcome (b'*' ∷ (decimal (length args) ++ 13 ∷ 10 ∷ (write_bulks args ++ rest)))) (
        rw (drop-line (b'*' ∷ decimal (length args)) (write_bulks args ++ rest))
          (parse_bulks-write_bulks args rest [] h))

consumed : (s rest : Bytes) → length (s ++ rest) - length rest ≡ length s
consumed s rest = omega (arith, length-append s rest)

parse_command_from_bytes-array :
    (s : Bytes) → parse_command_from_bytes (b'*' ∷ s) ≡ parse_resp_array (b'*' ∷ s)
unfolding parse_command_from_bytes
parse_command_from_bytes-array s = refl

bulks_outcome-done :
    (name : Bytes) (args : List Bytes) (rest : Bytes)
    → bulks_outcome (write_command (name ∷ args) ++ rest) (done (name ∷ args) rest)
      ≡ parsed (make_command name args) (length (write_command (name ∷ args)))
unfolding bulks_outcome words_outcome
bulks_outcome-done name args rest =
    ap (parsed (make_command name args)) (consumed (write_command (name ∷ args)) rest)

-- `ParseCommandFromBytes` takes a command of at most 1024 words of at most 512 KB each, written by
-- `WriteCommand`, off the front of any input: it returns the command, its name in upper case, and
-- counts exactly the bytes that were written.
pub parse_command_from_bytes-write_command :
    (name : Bytes) (args : List Bytes) (rest : Bytes)
    → length (name ∷ args) ≤ max_args
    → BulksFit (name ∷ args)
    → parse_command_from_bytes (write_command (name ∷ args) ++ rest)
      ≡ parsed (make_command name args) (length (write_command (name ∷ args)))
parse_command_from_bytes-write_command name args rest l h =
    ap parse_command_from_bytes written
    ∙ parse_command_from_bytes-array
        (decimal (length (name ∷ args)) ++ 13 ∷ 10 ∷ (write_bulks (name ∷ args) ++ rest))
    ∙ parse_resp_array-line (name ∷ args) rest l h
    ∙ ap (λ input. bulks_outcome input (done (name ∷ args) rest)) (sym written)
    ∙ bulks_outcome-done name args rest
  where
    written :
        write_command (name ∷ args) ++ rest
        ≡ b'*' ∷ (decimal (length (name ∷ args)) ++ 13 ∷ 10 ∷ (write_bulks (name ∷ args) ++ rest))
    written = write_command-append (name ∷ args) rest
