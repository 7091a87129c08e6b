-- ===== src/Protocol/Panics.antt =====
-- The counts of pkg/protocol/parser.go that are below what its slices take.
use fast_and_accurate_store.Base.{
  ℕ, suc, ◌^◌, ◌<◌, ◌≡◌, refl, ◌∙◌, some, [], ◌∷◌, ◌++◌, Bytes, length, take, drop, take_append,
}
use fast_and_accurate_store.Base.Int.{negsuc}
use fast_and_accurate_store.Protocol.Text.{is_space, decimal, scan_int}
use fast_and_accurate_store.Protocol.Decimal.{scan_int-minus, NoSpace, trim-crlf}
use fast_and_accurate_store.Protocol.Buffer.{index_crlf, parse_resp_array, parse_command_from_bytes}
use fast_and_accurate_store.Protocol.Buffer
use fast_and_accurate_store.Protocol.Stream.{read_line, scan_marked, read_array, parse_command}
use fast_and_accurate_store.Protocol.Stream
use fast_and_accurate_store.Protocol.RoundTrip.Lines.{
  index_crlf-line, read_line-line, decimal-NoSpace,
}
use fast_and_accurate_store.Protocol.RoundTrip.Streamed.{parse_command-array}

-- The header of an array of `- (n + 1)` words.
unfoldable pub negative_header : ℕ → Bytes
negative_header n = b'*' ∷ b'-' ∷ decimal (suc n)

negative_header-NoSpace : (n : ℕ) → NoSpace (negative_header n)
unfolding negative_header is_space
negative_header-NoSpace n = (refl, (refl, decimal-NoSpace (suc n)))

parse_resp_array-panicked :
    (input : Bytes) (idx n : ℕ)
    → index_crlf input ≡ some idx
    → scan_int (drop 1 (take idx input)) ≡ some (negsuc n)
    → parse_resp_array input ≡ Buffer.panicked
unfolding parse_resp_array
parse_resp_array-panicked input idx n e₁ e₂ = rw (parse_resp_array, e₁, e₂) refl

buffered :
    (n : ℕ) (rest : Bytes)
    → n < 2 ^ 63
    → parse_command_from_bytes (negative_header n ++ 13 ∷ 10 ∷ rest) ≡ Buffer.panicked
unfolding parse_command_from_bytes negative_header
buffered n rest l =
    parse_resp_array-panicked (negative_header n ++ 13 ∷ 10 ∷ rest) (length (negative_header n)) n
      (index_crlf-line (negative_header n) rest (negative_header-NoSpace n))
      (rw (take_append (decimal (suc n))) (scan_int-minus n l))

read_array-panicked :
    (line left : Bytes) (n : ℕ)
    → scan_marked b'*' line ≡ some (negsuc n)
    → read_array line left ≡ Stream.panicked
unfolding read_array
read_array-panicked line left n e = rw (read_array, e) refl

scan_marked-minus : (n : ℕ) → n < 2 ^ 63 → scan_marked b'*' (negative_header n) ≡ some (negsuc n)
unfolding scan_marked negative_header
scan_marked-minus n l = scan_int-minus n l

streamed :
    (n : ℕ) (rest : Bytes)
    → n < 2 ^ 63
    → parse_command (negative_header n ++ 13 ∷ 10 ∷ rest) ≡ Stream.panicked
unfolding negative_header
streamed n rest l =
    parse_command-array (negative_header n ++ 13 ∷ 10 ∷ rest) (negative_header n ++ 13 ∷ 10 ∷ [])
      (b'-' ∷ decimal (suc n)) rest
      (read_line-line (negative_header n) rest (negative_header-NoSpace n))
      (trim-crlf b'*' (b'-' ∷ decimal (suc n)) (negative_header-NoSpace n))
    ∙ read_array-panicked (negative_header n) rest n (scan_marked-minus n l)

-- An array header with a negative count that fits an `int64` makes both parsers panic, whatever
-- stands behind it.
pub parsers_panic :
    (n : ℕ) (rest : Bytes)
    → n < 2 ^ 63
    → (parse_command_from_bytes (negative_header n ++ 13 ∷ 10 ∷ rest) ≡ Buffer.panicked)
      × (parse_command (negative_header n ++ 13 ∷ 10 ∷ rest) ≡ Stream.panicked)
parsers_panic n rest l = (buffered n rest l, streamed n rest l)
