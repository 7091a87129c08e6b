-- ===== src/EventLoop/Schedule/Armed.antt =====
-- Connections of pkg/server/eventloop_linux.go with replies to write wait for write events.
use fast_and_accurate_store.Base.{
  ℕ, zero, suc, refl, subst, ◌≡◌, Bool, true, false, ◌||◌, Option, none, some, List, [], ◌∷◌, ◌++◌,
  Bytes, arith, length, drop, inl, inr, Bool-cases, Option-cases,
}
use fast_and_accurate_store.Protocol.Command.{Command}
use fast_and_accurate_store.Protocol.Buffer.{
  Outcome, incomplete, skipped, parsed, failed, panicked, parse_command_from_bytes,
}
use fast_and_accurate_store.Server.Reply.{format_reply}
use fast_and_accurate_store.EventLoop.Client.{
  ClientState, is_empty, WriteAnswer, wrote, again, broken, Flushed, after_answer, write_rounds,
  write, enable_write, disable_write, queue_write,
}
use fast_and_accurate_store.EventLoop.Gate.{verdict, authenticate, held_back}
use fast_and_accurate_store.EventLoop.Loop.{
  After, kept, closed, crashed, unfinished, Round, halt, go, run_command, handle, next_round,
  process_rounds, process, feed,
}
use fast_and_accurate_store.EventLoop.Loop.Rounds.{process_rounds-step}
use fast_and_accurate_store.EventLoop.Schedule.{
  ReadAnswer, drained, ended, LoopEvent, hung_up, ready, read, after_read, after_flush, after_write,
  and_later, dispatch, run_schedule,
}
use fast_and_accurate_store.EventLoop.Schedule.Output.{write_rounds-empty, write_rounds-more}

-- Every change of the events is accepted.
abbrev pub accepts : Bytes → Bool
accepts waiting = true

-- The connection waits for write events if it has something to write.
abbrev pub IsArmed : ClientState → Type 0
IsArmed c = (is_empty c.write_buffer || c.write_enabled) ≡ true

enabled : (c : ClientState) → is_empty c.write_buffer ≡ false → IsArmed c → c.write_enabled ≡ true
enabled c h a = ground (arith, h, a)

any_buffer :
    (c : ClientState) (output : Bytes)
    → c.write_enabled ≡ true
    → IsArmed (record c { write_buffer = output })
any_buffer c output h = ground (arith, h)

queue_write-IsArmed : (c : ClientState) (output : Bytes) → IsArmed (queue_write accepts c output)
unfolding queue_write enable_write
queue_write-IsArmed c output = ground arith

authenticate-IsArmed :
    (password : Bytes) (c : ClientState) (cmd : Command)
    → IsArmed (authenticate accepts password c cmd)
unfolding authenticate
authenticate-IsArmed password c cmd =
    queue_write-IsArmed (record c { authed = (verdict password c.authed cmd).0 })
      (verdict password c.authed cmd).1

abbrev ArmedFlush : Option ClientState → Type 0
ArmedFlush none = Unit
ArmedFlush (some c) = IsArmed c

module _ (kernel : Bytes → WriteAnswer) where
  abbrev flush_rounds : ℕ → ClientState → Flushed
  flush_rounds = write_rounds kernel (enable_write accepts) (disable_write accepts)

  after_answer-ArmedFlush :
      (answer : WriteAnswer) (c : ClientState) (rest : ℕ → Flushed)
      → c.write_enabled ≡ true
      → ((n : ℕ) → ArmedFlush (rest n).client)
      → ArmedFlush
          (after_answer kernel (enable_write accepts) (disable_write accepts) answer c rest).client
  unfolding enable_write
  after_answer-ArmedFlush (wrote zero) c rest e h = ground (arith, e)
  after_answer-ArmedFlush (wrote (suc n)) c rest e h = h (suc n)
  after_answer-ArmedFlush again c rest e h = ground (arith, e)
  after_answer-ArmedFlush broken c rest e h = tt

  disable_write-IsArmed :
      (c : ClientState) → is_empty c.write_buffer ≡ true → IsArmed (disable_write accepts c)
  unfolding disable_write
  disable_write-IsArmed c e = rw e refl

  write_rounds-ArmedFlush :
      (rounds : ℕ) (c : ClientState) → IsArmed c → ArmedFlush (flush_rounds rounds c).client
  write_rounds-ArmedFlush zero c a = unfold write_rounds in a
  write_rounds-ArmedFlush (suc rounds) c a = elim (Bool-cases (is_empty c.write_buffer)) [
    | inl h ↦ rw (write_rounds-empty kernel accepts rounds c h) (disable_write-IsArmed c h)
    | inr h ↦ rw (write_rounds-more kernel accepts rounds c h) (
        after_answer-ArmedFlush (kernel c.write_buffer) c _ (enabled c h a) λ n.
          write_rounds-ArmedFlush rounds (record c { write_buffer = drop n c.write_buffer })
            (any_buffer c (drop n c.write_buffer) (enabled c h a)))
  ]

module _ {S : Type 0} (exec : S → Command → Option (S × Bytes)) (required : Bool)
    (password : Bytes) where
  abbrev ArmedRound : Round S → Type 0
  ArmedRound (halt (kept s c)) = IsArmed c
  ArmedRound (halt (closed s authed)) = Unit
  ArmedRound (halt crashed) = Unit
  ArmedRound (halt unfinished) = Unit
  ArmedRound (go s c) = IsArmed c

  abbrev pub ArmedAfter : After S → Type 0
  ArmedAfter a = ArmedRound (halt a)

  run_command-ArmedRound :
      (s : S) (c : ClientState) (cmd : Command)
      → ArmedRound (run_command exec accepts required password s c cmd)
  unfolding run_command
  run_command-ArmedRound s c cmd = elim (Bool-cases (held_back required c)) [
    | inl h ↦ rw h (authenticate-IsArmed password c cmd)
    | inr h ↦ elim (Option-cases (exec s cmd)) [
      | inl e ↦ rw (h, e) tt
      | inr ((s', response), e) ↦ rw (h, e) (queue_write-IsArmed c (format_reply response))
    ]
  ]

  handle-ArmedRound :
      (o : Outcome) (s : S) (c : ClientState)
      → IsArmed c
      → ArmedRound (handle exec accepts required password o s c)
  unfolding handle
  handle-ArmedRound incomplete s c a = a
  handle-ArmedRound (skipped n) s c a = a
  handle-ArmedRound (parsed cmd n) s c a =
      run_command-ArmedRound s (record c { buffer = drop n c.buffer }) cmd
  handle-ArmedRound (failed e) s c a = tt
  handle-ArmedRound panicked s c a = tt

  next_round-ArmedRound :
      (s : S) (c : ClientState)
      → IsArmed c
      → ArmedRound (next_round exec accepts required password s c)
  unfolding next_round
  next_round-ArmedRound s c a = elim (Bool-cases (is_empty c.buffer)) [
    | inl h ↦ rw h a
    | inr h ↦ rw h (handle-ArmedRound (parse_command_from_bytes c.buffer) s c a)
  ]

  rounds_step :
      (rounds : ℕ) (s : S) (c : ClientState) (r : Round S)
      → next_round exec accepts required password s c ≡ r
      → ArmedRound r
      → ((s' : S) (c' : ClientState)
          → IsArmed c'
          → ArmedAfter (process_rounds exec accepts required password rounds s' c'))
      → ArmedAfter (process_rounds exec accepts required password (suc rounds) s c)
  rounds_step rounds s c (halt a) e h ih =
      rw (process_rounds-step exec accepts required password rounds s c (halt a) e) h
  rounds_step rounds s c (go s' c') e h ih =
      rw (process_rounds-step exec accepts required password rounds s c (go s' c') e) (ih s' c' h)

  process_rounds-ArmedAfter :
      (rounds : ℕ) (s : S) (c : ClientState)
      → IsArmed c
      → ArmedAfter (process_rounds exec accepts required password rounds s c)
  process_rounds-ArmedAfter zero s c a = unfold process_rounds in tt
  process_rounds-ArmedAfter (suc rounds) s c a =
      rounds_step rounds s c (next_round exec accepts required password s c) refl
        (next_round-ArmedRound s c a) (process_rounds-ArmedAfter rounds)

  feed-ArmedAfter :
      (s : S) (c : ClientState) (input : Bytes)
      → IsArmed c
      → ArmedAfter (feed exec accepts required password s c input)
  unfolding feed process
  feed-ArmedAfter s c input a =
      process_rounds-ArmedAfter (suc (length (c.buffer ++ input))) s
        (record c { buffer = c.buffer ++ input }) a

  after_read-ArmedAfter :
      (r : Option ReadAnswer) (s : S) (c : ClientState)
      → IsArmed c
      → ArmedAfter (after_read exec accepts required password r s c)
  unfolding read
  after_read-ArmedAfter none s c a = a
  after_read-ArmedAfter (some (drained input)) s c a = feed-ArmedAfter s c input a
  after_read-ArmedAfter (some (ended input)) s c a = tt

  after_flush-ArmedAfter :
      (s : S) (authed : Bool) (o : Option ClientState)
      → ArmedFlush o
      → ArmedAfter (after_flush exec accepts required password s authed o)
  after_flush-ArmedAfter s authed none h = tt
  after_flush-ArmedAfter s authed (some c) h = h

  after_write-ArmedAfter :
      (w : Option (Bytes → WriteAnswer)) (a : After S)
      → ArmedAfter a
      → ArmedAfter (after_write exec accepts required password w a).0
  unfolding after_write write
  after_write-ArmedAfter none a h = h
  after_write-ArmedAfter (some kernel) (kept s c) h =
      after_flush-ArmedAfter s _ _
        (write_rounds-ArmedFlush kernel (suc (length c.write_buffer)) c h)
  after_write-ArmedAfter (some kernel) (closed s authed) h = tt
  after_write-ArmedAfter (some kernel) crashed h = tt
  after_write-ArmedAfter (some kernel) unfinished h = tt

  dispatch-ArmedAfter :
      (e : LoopEvent) (s : S) (c : ClientState)
      → IsArmed c
      → ArmedAfter (dispatch exec accepts required password e s c).0
  unfolding dispatch
  dispatch-ArmedAfter hung_up s c a = tt
  dispatch-ArmedAfter (ready r w) s c a = after_write-ArmedAfter w _ (after_read-ArmedAfter r s c a)

  and_later-ArmedAfter :
      (v : Bytes) (a : After S) (later : S → ClientState → After S × Bytes)
      → ArmedAfter a
      → ((s : S) (c : ClientState) → IsArmed c → ArmedAfter (later s c).0)
      → ArmedAfter (and_later exec accepts required password v a later).0
  and_later-ArmedAfter v (kept s c) later h ih = ih s c h
  and_later-ArmedAfter v (closed s authed) later h ih = tt
  and_later-ArmedAfter v crashed later h ih = tt
  and_later-ArmedAfter v unfinished later h ih = tt

  run_schedule-ArmedAfter :
      (events : List LoopEvent) (s : S) (c : ClientState)
      → IsArmed c
      → ArmedAfter (run_schedule exec accepts required password events s c).0
  unfolding run_schedule
  run_schedule-ArmedAfter [] s c a = a
  run_schedule-ArmedAfter (e ∷ events) s c a =
      and_later-ArmedAfter _ (dispatch exec accepts required password e s c).0 _
        (dispatch-ArmedAfter e s c a) (run_schedule-ArmedAfter events)

  -- Where epoll accepts every change of the events, a connection that goes through any events and is
  -- kept waits for write events whenever it has bytes to write, if it did so at the start.
  pub run_schedule-IsArmed :
      (events : List LoopEvent) (s s' : S) (c c' : ClientState) (wire : Bytes)
      → IsArmed c
      → run_schedule exec accepts required password events s c ≡ (kept s' c', wire)
      → IsArmed c'
  run_schedule-IsArmed events s s' c c' wire a e =
      subst (λ (r : After S × Bytes). ArmedAfter r.0) e (run_schedule-ArmedAfter events s c a)
