-- ===== src/Protocol/Tests.antt =====
-- The theorems on pkg/protocol and on the log at concrete input.
use fast_and_accurate_store.Base.{◌≡◌, refl, List, [], ◌∷◌, ◌++◌, Bytes, codes, arith, length}
use fast_and_accurate_store.Protocol.Command.{make_command}
use fast_and_accurate_store.Protocol.Writer.{write_command, write_bulks, write_bulk_string}
use fast_and_accurate_store.Protocol.Text.{
  to_upper, decimal, fields, trim, trim_left, trim_right, scan_int, read_digits,
}
use fast_and_accurate_store.Protocol.Buffer.{parsed, skipped, incomplete, parse_command_from_bytes}
use fast_and_accurate_store.Protocol.Buffer
use fast_and_accurate_store.Protocol.Stream.{command, parse_command}
use fast_and_accurate_store.Protocol.Stream
use fast_and_accurate_store.Protocol.Consumed.{Consumes, parse_command_from_bytes-Consumes}
use fast_and_accurate_store.Protocol.Panics.{negative_header, parsers_panic}
use fast_and_accurate_store.Protocol.RoundTrip.Buffered.{parse_command_from_bytes-write_command}
use fast_and_accurate_store.Protocol.RoundTrip.Streamed.{parse_command-write_command}

abbrev get_name : Bytes
get_name = codes "get"

abbrev get_args : List Bytes
get_args = codes "key one" ∷ [] ∷ []

abbrev next_input : Bytes
next_input = codes "*1"

-- A command in lower case, with a space in one argument and none in the other.
written :
    write_command (codes "PING" ∷ [])
    ≡ codes "*1" ++ (13 ∷ 10 ∷ codes "$4" ++ (13 ∷ 10 ∷ codes "PING" ++ (13 ∷ 10 ∷ [])))
unfolding write_command decimal write_bulks write_bulk_string
written = refl

inline :
    parse_command_from_bytes (codes " ping  x " ++ (13 ∷ 10 ∷ next_input))
    ≡ parsed (record { name = codes "PING"; args = codes "x" ∷ [] }) 11
unfolding parse_command_from_bytes make_command to_upper fields trim trim_right trim_left
inline = refl

blank_line : parse_command_from_bytes (13 ∷ 10 ∷ next_input) ≡ skipped 2
unfolding parse_command_from_bytes fields trim trim_right trim_left
blank_line = refl

unfinished : parse_command_from_bytes (codes "*1" ++ (13 ∷ 10 ∷ codes "$4")) ≡ incomplete
unfolding parse_command_from_bytes scan_int read_digits
unfinished = refl

parse_command_from_bytes-write_command_example :
    parse_command_from_bytes (write_command (get_name ∷ get_args) ++ next_input)
    ≡ parsed (make_command get_name get_args) (length (write_command (get_name ∷ get_args)))
parse_command_from_bytes-write_command_example =
    parse_command_from_bytes-write_command get_name get_args next_input (omega arith)
      (omega arith, (omega arith, (omega arith, tt)))

parse_command-write_command_example :
    parse_command (write_command (get_name ∷ get_args) ++ next_input)
    ≡ command (make_command get_name get_args) next_input
parse_command-write_command_example =
    parse_command-write_command get_name get_args next_input (omega arith)
      (omega arith, (omega arith, (omega arith, tt)))

abbrev inline_ping : Bytes
inline_ping = codes "ping" ++ (13 ∷ 10 ∷ next_input)

parse_command_from_bytes-Consumes_example :
    Consumes (length inline_ping) (parse_command_from_bytes inline_ping)
parse_command_from_bytes-Consumes_example = parse_command_from_bytes-Consumes inline_ping

parsers_panic_example :
    (parse_command_from_bytes (negative_header 0 ++ 13 ∷ 10 ∷ []) ≡ Buffer.panicked)
    × (parse_command (negative_header 0 ++ 13 ∷ 10 ∷ []) ≡ Stream.panicked)
parsers_panic_example = parsers_panic 0 [] (omega arith)
