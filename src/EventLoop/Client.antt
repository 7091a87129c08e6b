-- ===== src/EventLoop/Client.antt =====
-- The state of a connection of the event loops and its output side, in pkg/server/eventloop_linux.go
-- and pkg/server/eventloop_darwin.go. What the system calls answer is an argument: `ctl` tells of the
-- bytes that wait to be written whether the change of the events is accepted, and `kernel` what a
-- write of them returns.
use fast_and_accurate_store.Base.{
  ℕ, zero, suc, Bool, true, false, not, ◌&&◌, ◌||◌, Option, none, some, [], ◌∷◌, ◌++◌, Bytes,
  length, take, drop, if◌then◌else◌,
}

-- `ClientState`, without its descriptor
pub record ClientState : Type 0 where
  pub buffer : Bytes
  pub write_buffer : Bytes
  pub write_enabled : Bool
  pub authed : Bool

-- The `ClientState` that `accept` of the Linux loop makes
unfoldable pub accepted : Bool → ClientState
accepted auth_enabled = record {
  buffer = [];
  write_buffer = [];
  write_enabled = false;
  authed = if auth_enabled then false else true;
}

abbrev pub is_empty : Bytes → Bool
is_empty [] = true
is_empty (c ∷ s) = false

-- `enableWrite` of a connection that is in the map: a call only where the flag is not set, which is set
-- if the call succeeds
unfoldable pub enable_write : (Bytes → Bool) → ClientState → ClientState
enable_write ctl c = record c { write_enabled = c.write_enabled || ctl c.write_buffer }

-- `disableWrite` of the Linux loop: a call only where the flag is set, which is cleared if the call
-- succeeds
unfoldable pub disable_write : (Bytes → Bool) → ClientState → ClientState
disable_write ctl c = record c { write_enabled = c.write_enabled && not (ctl c.write_buffer) }

-- `disableWrite` of the Darwin loop, which clears the flag in any case
unfoldable pub disable_write_darwin : ClientState → ClientState
disable_write_darwin c = record c { write_enabled = false }

-- `queueWrite`; a write to a bytes.Buffer returns no error.
unfoldable pub queue_write : (Bytes → Bool) → ClientState → Bytes → ClientState
unfolding enable_write
queue_write ctl c output = enable_write ctl (record c { write_buffer = c.write_buffer ++ output })

-- What syscall.Write returns: a number of bytes, EAGAIN, or another error.
pub data WriteAnswer : Type 0 where
  wrote : ℕ → WriteAnswer
  again : WriteAnswer
  broken : WriteAnswer

-- What a call of `write` comes to: the connection, or none when it was closed, and the bytes that the
-- kernel has taken.
pub record Flushed : Type 0 where
  pub client : Option ClientState
  pub wire : Bytes

-- The loop of `write`, with a bound on its rounds; what it does at EAGAIN and at the end of the
-- buffer are arguments.
module _ (kernel : Bytes → WriteAnswer) (on_again on_empty : ClientState → ClientState) where
  abbrev pub after_answer : WriteAnswer → ClientState → (ℕ → Flushed) → Flushed
  after_answer (wrote zero) c rest = record { client = some c; wire = [] }
  after_answer (wrote (suc n)) c rest = rest (suc n)
  after_answer again c rest = record { client = some (on_again c); wire = [] }
  after_answer broken c rest = record { client = none; wire = [] }

  unfoldable pub write_rounds : ℕ → ClientState → Flushed
  write_rounds zero c = record { client = some c; wire = [] }
  write_rounds (suc rounds) c = elim (is_empty c.write_buffer) [
    | true ↦ record { client = some (on_empty c); wire = [] }
    | false ↦ after_answer (kernel c.write_buffer) c λ n.
        let rest = write_rounds rounds (record c { write_buffer = drop n c.write_buffer }) in
        record rest { wire = take n c.write_buffer ++ rest.wire }
  ]

-- `write` of the Linux loop, of a connection that is in the map; each round but the last takes a
-- byte off the buffer at least.
unfoldable pub write : (Bytes → WriteAnswer) → (Bytes → Bool) → ClientState → Flushed
unfolding write_rounds enable_write disable_write
write kernel ctl c =
    write_rounds kernel (enable_write ctl) (disable_write ctl) (suc (length c.write_buffer)) c

-- `write` of the Darwin loop
unfoldable pub write_darwin : (Bytes → WriteAnswer) → ClientState → Flushed
unfolding write_rounds disable_write_darwin
write_darwin kernel c =
    write_rounds kernel (λ c'. c') disable_write_darwin (suc (length c.write_buffer)) c
