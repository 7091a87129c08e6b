-- ===== src/Server/Reply.antt =====
-- What becomes of a reply of executeCommand on the wire, in pkg/server/eventloop_linux.go and
-- pkg/server/server.go.
pub mod Alike
use fast_and_accurate_store.Base.{
  ℕ, Option, none, some, List, [], ◌∷◌, ◌++◌, Bytes, codes, length, drop, str_eq, has_prefix,
  if◌then◌else◌,
}
use fast_and_accurate_store.Base.Int.{ℤ, pos}
use fast_and_accurate_store.Protocol.Text.{scan_int}
use fast_and_accurate_store.Protocol.Writer.{
  crlf, write_string, write_error, write_null, write_bulk_string,
}
use fast_and_accurate_store.Server.Cluster.{int_text}

abbrev pub err_prefix : Bytes
err_prefix = codes "ERR "

abbrev pub integer_prefix : Bytes
integer_prefix = codes "(integer) "

-- `fmt.Sscanf(response, "(integer) %d", &n)` of a response with that prefix; `n` stays 0 where no
-- number stands behind it.
unfoldable pub integer_of : Bytes → ℤ
integer_of response = elim (scan_int (drop 10 response)) [ none ↦ pos 0 | some n ↦ n ]

-- The kinds of reply, told apart by their text.
pub data Kind : Type 0 where
  error_reply integer_reply null_reply status_reply bulk_reply : Kind

unfoldable pub kind_of : Bytes → Kind
unfolding has_prefix str_eq
kind_of response =
    if has_prefix err_prefix response
    then error_reply
    else if has_prefix integer_prefix response
    then integer_reply
    else if str_eq response (codes "(nil)")
    then null_reply
    else if str_eq response (codes "OK")
    then status_reply
    else bulk_reply

-- `-ERR %s\r\n` of the response without its prefix, `:%d\r\n`, `$-1\r\n`, `+OK\r\n`, or a bulk string.
unfoldable pub format_as : Kind → Bytes → Bytes
unfolding integer_of int_text write_bulk_string
format_as error_reply response = codes "-ERR " ++ (drop 4 response ++ crlf)
format_as integer_reply response = b':' ∷ (int_text (integer_of response) ++ crlf)
format_as null_reply response = codes "$-1" ++ crlf
format_as status_reply response = codes "+OK" ++ crlf
format_as bulk_reply response = write_bulk_string response

-- The reply of the event loops.
unfoldable pub format_reply : Bytes → Bytes
unfolding kind_of format_as
format_reply response = format_as (kind_of response) response

-- The reply of `handleConnection`. It writes the response without its `ERR `, and as the format of
-- fmt.Errorf, which is `errorf` here: it changes a text with `%` in it.
module _ (errorf : Bytes → Bytes) where
  unfoldable pub write_as : Kind → Bytes → Bytes
  unfolding integer_of int_text write_error write_null write_string write_bulk_string
  write_as error_reply response = write_error (errorf (drop 4 response))
  write_as integer_reply response = b':' ∷ (int_text (integer_of response) ++ crlf)
  write_as null_reply response = write_null
  write_as status_reply response = write_string response
  write_as bulk_reply response = write_bulk_string response

  unfoldable pub write_reply : Bytes → Bytes
  unfolding kind_of write_as
  write_reply response = write_as (kind_of response) response
