-- ===== src/Server/Connection.antt =====
-- handleConnection of pkg/server/server.go over the bytes that the client sends up to the end of its
-- input. `exec` is executeCommand: none where it panics. `hand_over` is what handleReplicaConnection
-- and handleSubscribe do to the server, and write, before they wait (Server.HandOver). The texts of the parser's errors, parts of
-- which are those of package fmt, and what fmt.Errorf makes of a format are arguments.
pub mod Pipelined
pub mod Guard
pub mod Gated
pub mod Ends
mod Tests
use fast_and_accurate_store.Base.{
  ℕ, zero, suc, Bool, true, false, not, ◌&&◌, Option, none, some, List, [], ◌∷◌, ◌++◌, Bytes, codes,
  length, str_eq, if◌then◌else◌,
}
use fast_and_accurate_store.Protocol.Text.{to_upper}
use fast_and_accurate_store.Protocol.Command.{Command, ParseError}
use fast_and_accurate_store.Protocol.Writer.{write_string, write_error}
use fast_and_accurate_store.Protocol.Stream.{
  Reading, command, nothing, eof, unexpected_eof, failed, panicked, parse_command,
}
use fast_and_accurate_store.Server.Config.{Config, Prefix, is_blank}
use fast_and_accurate_store.Server.Reply.{write_reply}
use fast_and_accurate_store.Server.Handler.{one_arg}

-- The loop of `isAllowed`
unfoldable pub any_contains : List Prefix → Bytes → Bool
any_contains [] ip = false
any_contains (p ∷ prefixes) ip = let rest = any_contains prefixes ip in if p ip then true else rest

-- `isAllowed`
unfoldable pub is_allowed : List Prefix → Bytes → Bool
unfolding any_contains
is_allowed [] ip = true
is_allowed (p ∷ prefixes) ip = any_contains (p ∷ prefixes) ip

-- The client's address: that of another network than TCP, one that netip.ParseAddr refuses, or an
-- address.
pub data Remote : Type 0 where
  no_tcp : Remote
  bad_address : Remote
  address : Bytes → Remote

-- The allowlist check
unfoldable pub admits : List Prefix → Remote → Bool
unfolding is_allowed
admits [] remote = true
admits (p ∷ prefixes) no_tcp = true
admits (p ∷ prefixes) bad_address = false
admits (p ∷ prefixes) (address ip) = is_allowed (p ∷ prefixes) ip

-- How a connection leaves the loop: at the end of the input, closed by the server, handed to
-- handleReplicaConnection or to handleSubscribe, in a panic, or the bound on the rounds was too low.
pub data Leaving : Type 0 where
  hung_up dropped replicating : Leaving
  subscribing : List Bytes → Leaving
  crashed unfinished : Leaving

-- Whether it is handed over
abbrev pub hands_over : Leaving → Bool
hands_over hung_up = false
hands_over dropped = false
hands_over replicating = true
hands_over (subscribing channels) = true
hands_over crashed = false
hands_over unfinished = false

-- The server, whether the connection is authenticated, the bytes that were written to it, and how it
-- left the loop.
pub record Served (S : Type 0) : Type 0 where
  pub server : S
  pub authed : Bool
  pub output : Bytes
  pub leaving : Leaving

-- What a command comes to: a reply and the next round, or the end.
pub data Handled (S : Type 0) : Type 0 where
  goes_on : S → Bool → Bytes → Handled S
  ends : Served S → Handled S

abbrev pub not_allowed : Bytes
not_allowed = codes "ERR connection not allowed"

abbrev pub no_auth : Bytes
no_auth = codes "NOAUTH Authentication required"

abbrev pub auth_arity : Bytes
auth_arity = codes "ERR wrong number of arguments for 'auth' command"

abbrev pub bad_password : Bytes
bad_password = codes "ERR invalid password"

abbrev pub subscribe_arity : Bytes
subscribe_arity = codes "wrong number of arguments for 'subscribe' command"

abbrev pub unset_password : Bytes
unset_password = codes "ERR auth enabled but password not set"

-- Puts `output` in front of what was written later.
abbrev pub after_output : {S : Type 0} → Bytes → Served S → Served S
after_output output r = record r { output = output ++ r.output }

module _ {S : Type 0} (exec : S → Command → Option (S × Bytes))
    (hand_over : Leaving → S → S × Bytes) (errorf : Bytes → Bytes) (error_text : ParseError → Bytes)
    (admitted : Bool) (password : Bytes) where
  -- AUTH
  unfoldable pub authenticate_with : Option Bytes → S → Bool → Handled S
  unfolding write_string write_error
  authenticate_with none s authed = goes_on s authed (write_error auth_arity)
  authenticate_with (some arg) s authed =
      if str_eq arg password
      then goes_on s true (write_string (codes "OK"))
      else goes_on s authed (write_error bad_password)

  -- The call of handleReplicaConnection or of handleSubscribe, with what it does before it waits.
  abbrev pub handed_over : Leaving → S → Bool → Served S
  handed_over leaving s authed = record {
    server = (hand_over leaving s).0;
    authed = authed;
    output = (hand_over leaving s).1;
    leaving = leaving;
  }

  -- SUBSCRIBE
  unfoldable pub subscribe_to : List Bytes → S → Bool → Handled S
  unfolding write_error
  subscribe_to [] s authed = goes_on s authed (write_error subscribe_arity)
  subscribe_to (channel ∷ channels) s authed =
      ends (handed_over (subscribing (channel ∷ channels)) s authed)

  -- Any other command
  unfoldable pub respond : S → Bool → Command → Handled S
  unfolding write_reply
  respond s authed cmd = elim (exec s cmd) [
    | none ↦ ends (record { server = s; authed = authed; output = []; leaving = crashed })
    | some (s', response) ↦ goes_on s' authed (write_reply errorf response)
  ]

  -- A command behind the allowlist check
  unfoldable pub handle_command : S → Bool → Command → Handled S
  unfolding authenticate_with subscribe_to respond to_upper str_eq write_error
  handle_command s authed cmd =
      if not authed && not (str_eq (to_upper cmd.name) (codes "AUTH"))
      then goes_on s authed (write_error no_auth)
      else if str_eq (to_upper cmd.name) (codes "AUTH")
      then authenticate_with (one_arg cmd.args) s authed
      else if str_eq (to_upper cmd.name) (codes "REPL")
      then ends (handed_over replicating s authed)
      else if str_eq (to_upper cmd.name) (codes "SUBSCRIBE")
      then subscribe_to cmd.args s authed
      else respond s authed cmd

  unfoldable pub check_command : S → Bool → Command → Handled S
  unfolding handle_command write_error
  check_command s authed cmd =
      if admitted
      then handle_command s authed cmd
      else ends (record {
        server = s;
        authed = authed;
        output = write_error not_allowed;
        leaving = dropped;
      })

  -- What comes of a command, when `rest` gives what comes of the rounds behind it.
  abbrev pub then_rounds : Handled S → (S → Bool → Served S) → Served S
  then_rounds (goes_on s authed output) rest = after_output output (rest s authed)
  then_rounds (ends r) rest = r

  abbrev pub leave_with : S → Bool → Bytes → Leaving → Served S
  leave_with s authed output leaving = record {
    server = s;
    authed = authed;
    output = output;
    leaving = leaving;
  }

  -- One round, on what ParseCommand gives
  unfoldable pub serve_reading : Reading → S → Bool → (Bytes → S → Bool → Served S) → Served S
  unfolding check_command write_error
  serve_reading (command cmd left) s authed rest =
      then_rounds (check_command s authed cmd) (rest left)
  serve_reading (nothing left) s authed rest = rest left s authed
  serve_reading eof s authed rest = leave_with s authed [] hung_up
  serve_reading unexpected_eof s authed rest =
      leave_with s authed (write_error (codes "unexpected EOF")) dropped
  serve_reading (failed e) s authed rest = leave_with s authed (write_error (error_text e)) dropped
  serve_reading panicked s authed rest = leave_with s authed [] crashed

  -- The loop, with a bound on its rounds
  unfoldable pub serve_rounds : ℕ → Bytes → S → Bool → Served S
  unfolding serve_reading parse_command
  serve_rounds zero input s authed = leave_with s authed [] unfinished
  serve_rounds (suc rounds) input s authed =
      serve_reading (parse_command input) s authed
        λ left s' authed'. serve_rounds rounds left s' authed'

  -- Each round but the last takes a byte at least.
  unfoldable pub serve : Bytes → S → Bool → Served S
  unfolding serve_rounds
  serve input s authed = serve_rounds (suc (length input)) input s authed

  -- `handleConnection`
  unfoldable pub handle_connection : Bool → Bytes → S → Served S
  unfolding serve write_error
  handle_connection auth_enabled input s =
      if auth_enabled && is_blank password
      then leave_with s false (write_error unset_password) dropped
      else serve input s (not auth_enabled)
