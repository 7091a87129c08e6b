-- ===== src/Protocol/Writer.antt =====
-- pkg/protocol/writer.go: the bytes that each method writes.
use fast_and_accurate_store.Base.{ℕ, List, [], ◌∷◌, ◌++◌, Bytes, codes, length}
use fast_and_accurate_store.Protocol.Text.{decimal}

abbrev pub crlf : Bytes
crlf = 13 ∷ 10 ∷ []

-- `WriteBulkString`, and the loop's body in `WriteCommand`
unfoldable pub write_bulk_string : Bytes → Bytes
write_bulk_string s = b'$' ∷ (decimal (length s) ++ (crlf ++ (s ++ crlf)))

unfoldable pub write_bulks : List Bytes → Bytes
unfolding write_bulk_string
write_bulks [] = []
write_bulks (arg ∷ args) = write_bulk_string arg ++ write_bulks args

-- `WriteCommand`
unfoldable pub write_command : List Bytes → Bytes
unfolding write_bulks
write_command args = b'*' ∷ (decimal (length args) ++ (crlf ++ write_bulks args))

-- `WriteString`
unfoldable pub write_string : Bytes → Bytes
write_string s = b'+' ∷ (s ++ crlf)

-- `WriteError`
unfoldable pub write_error : Bytes → Bytes
write_error message = b'-' ∷ (message ++ crlf)

-- `WriteNull`
unfoldable pub write_null : Bytes
write_null = codes "$-1" ++ crlf

-- `WriteInteger` of a number that is not negative: the server writes counts only.
unfoldable pub write_integer : ℕ → Bytes
write_integer n = b':' ∷ (decimal n ++ crlf)
