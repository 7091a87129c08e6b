-- ===== src/EventLoop/Loop.antt =====
-- The loop of `read` in pkg/server/eventloop_linux.go and pkg/server/eventloop_darwin.go that takes
-- the commands off the buffer. `exec` is executeCommand: none where it panics.
pub mod Rounds
pub mod Fragments
pub mod Idle
pub mod Auth
pub mod Pipelined
use fast_and_accurate_store.Base.{
  ℕ, zero, suc, Bool, true, false, Option, none, some, List, [], ◌∷◌, ◌++◌, Bytes, length, drop,
  if◌then◌else◌,
}
use fast_and_accurate_store.Protocol.Command.{Command}
use fast_and_accurate_store.Protocol.Buffer.{
  Outcome, incomplete, skipped, parsed, failed, panicked, parse_command_from_bytes,
}
use fast_and_accurate_store.Server.Reply.{format_reply}
use fast_and_accurate_store.EventLoop.Client.{ClientState, is_empty, queue_write}
use fast_and_accurate_store.EventLoop.Gate.{authenticate, held_back}

-- What becomes of the server and the connection: both go on; the connection is closed, when it was
-- authenticated or was not; the program panics; or the bound on the rounds was too low.
pub data After (S : Type 0) : Type 0 where
  kept : S → ClientState → After S
  closed : S → Bool → After S
  crashed : After S
  unfinished : After S

-- What one round comes to: the end of the loop, or another round.
pub data Round (S : Type 0) : Type 0 where
  halt : After S → Round S
  go : S → ClientState → Round S

module _ {S : Type 0} (exec : S → Command → Option (S × Bytes)) (ctl : Bytes → Bool)
    (required : Bool) (password : Bytes) where
  -- What the loop does with a command that was taken off the buffer.
  unfoldable pub run_command : S → ClientState → Command → Round S
  run_command s c cmd =
      if held_back required c then go s (authenticate ctl password c cmd) else elim (exec s cmd) [
        | none ↦ halt crashed
        | some (s', response) ↦ go s' (queue_write ctl c (format_reply response))
      ]

  -- What the loop does with an outcome of the parser; `nil` for the command ends it, also where the
  -- parser has skipped a line.
  unfoldable pub handle : Outcome → S → ClientState → Round S
  handle incomplete s c = halt (kept s c)
  handle (skipped n) s c = halt (kept s c)
  handle (parsed cmd n) s c = run_command s (record c { buffer = drop n c.buffer }) cmd
  handle (failed e) s c = halt (closed s c.authed)
  handle panicked s c = halt crashed

  -- One round of the loop
  unfoldable pub next_round : S → ClientState → Round S
  next_round s c =
      if is_empty c.buffer then halt (kept s c) else handle (parse_command_from_bytes c.buffer) s c

  -- The loop, with a bound on its rounds
  unfoldable pub process_rounds : ℕ → S → ClientState → After S
  process_rounds zero s c = unfinished
  process_rounds (suc rounds) s c = elim (next_round s c) [
    | halt r ↦ r
    | go s' c' ↦ process_rounds rounds s' c'
  ]

  -- Each round but the last takes a byte off the buffer at least.
  unfoldable pub process : S → ClientState → After S
  process s c = process_rounds (suc (length c.buffer)) s c

  -- `read`, where the system calls have given `input`
  unfoldable pub feed : S → ClientState → Bytes → After S
  feed s c input = process s (record c { buffer = c.buffer ++ input })
