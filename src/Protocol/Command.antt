-- ===== src/Protocol/Command.antt =====
-- The `Command` of pkg/protocol/parser.go and what its parsers return.
use fast_and_accurate_store.Base.{ℕ, ◌*◌, List, Bytes}
use fast_and_accurate_store.Protocol.Text.{to_upper}

pub record Command : Type 0 where
  pub name : Bytes
  pub args : List Bytes

abbrev pub max_args : ℕ
max_args = 1024

abbrev pub max_bulk_length : ℕ
max_bulk_length = 512 * 1024

abbrev pub max_inline_bytes : ℕ
max_inline_bytes = 8 * 1024

-- The errors that the parsers make themselves.
pub data ParseError : Type 0 where
  bad_array_length too_many_arguments bad_bulk_length bulk_too_large bad_termination
        inline_too_long :
      ParseError

-- `&Command{Name: strings.ToUpper(parts[0]), Args: parts[1:]}`
unfoldable pub make_command : Bytes → List Bytes → Command
make_command name args = record { name = to_upper name; args = args }
