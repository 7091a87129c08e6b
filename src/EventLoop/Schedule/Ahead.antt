-- ===== src/EventLoop/Schedule/Ahead.antt =====
-- The loop over the commands does not look at what waits to be written, in
-- pkg/server/eventloop_linux.go and pkg/server/eventloop_darwin.go.
use fast_and_accurate_store.Base.{
  ℕ, zero, suc, refl, ap, ◌≡◌, Bool, Option, ◌++◌, append_assoc, Bytes, drop, ◌||◌, inl, inr,
  Bool-cases, Option-cases,
}
use fast_and_accurate_store.Protocol.Command.{Command}
use fast_and_accurate_store.Protocol.Buffer.{
  Outcome, incomplete, skipped, parsed, failed, panicked, parse_command_from_bytes,
}
use fast_and_accurate_store.Server.Reply.{format_reply}
use fast_and_accurate_store.EventLoop.Client.{ClientState, is_empty, queue_write}
use fast_and_accurate_store.EventLoop.Gate.{verdict, authenticate, held_back}
use fast_and_accurate_store.EventLoop.Loop.{
  After, kept, closed, crashed, unfinished, Round, halt, go, run_command, handle, next_round,
  process_rounds, process, feed,
}
use fast_and_accurate_store.EventLoop.Loop.Rounds.{process_rounds-step}

-- The connection with `w` in front of what waits to be written.
abbrev pub ahead : Bytes → Bool → ClientState → ClientState
ahead w e c = record c { write_buffer = w ++ c.write_buffer; write_enabled = e }

module _ {S : Type 0} (w : Bytes) where
  abbrev pub AfterAhead : After S → After S → Type 0
  AfterAhead (kept s c) a = (e : Bool) × (a ≡ kept s (ahead w e c))
  AfterAhead (closed s authed) a = a ≡ closed s authed
  AfterAhead crashed a = a ≡ crashed
  AfterAhead unfinished a = a ≡ unfinished

  abbrev RoundAhead : Round S → Round S → Type 0
  RoundAhead (halt a) r = (a' : After S) × ((r ≡ halt a') × AfterAhead a a')
  RoundAhead (go s c) r = (e : Bool) × (r ≡ go s (ahead w e c))

module _ {S : Type 0} (exec : S → Command → Option (S × Bytes)) (ctl : Bytes → Bool)
    (required : Bool) (password : Bytes) (w : Bytes) where
  queue_write-ahead :
      (e : Bool) (c : ClientState) (output : Bytes)
      → queue_write ctl (ahead w e c) output
        ≡ ahead w (queue_write ctl (ahead w e c) output).write_enabled (queue_write ctl c output)
  unfolding queue_write
  queue_write-ahead e c output =
      ap
        (λ waiting. record c {
          write_buffer = waiting;
          write_enabled = e || ctl ((w ++ c.write_buffer) ++ output);
        })
        (append_assoc w c.write_buffer output)

  run_command-ahead :
      (s : S) (e : Bool) (c : ClientState) (cmd : Command)
      → RoundAhead w
          (run_command exec ctl required password s c cmd)
          (run_command exec ctl required password s (ahead w e c) cmd)
  unfolding run_command held_back authenticate
  run_command-ahead s e c cmd = elim (Bool-cases (held_back required c)) [
    | inl h ↦ rw h (
      _,
      ap (go s) (
          queue_write-ahead e (record c { authed = (verdict password c.authed cmd).0 })
            (verdict password c.authed cmd).1),
    )
    | inr h ↦ elim (Option-cases (exec s cmd)) [
      | inl x ↦ rw (h, x) (crashed, (refl, refl))
      | inr ((s', response), x) ↦
          rw (h, x) (_, ap (go s') (queue_write-ahead e c (format_reply response)))
    ]
  ]

  handle-ahead :
      (o : Outcome) (s : S) (e : Bool) (c : ClientState)
      → RoundAhead w
          (handle exec ctl required password o s c)
          (handle exec ctl required password o s (ahead w e c))
  unfolding handle
  handle-ahead incomplete s e c = (_, (refl, (e, refl)))
  handle-ahead (skipped n) s e c = (_, (refl, (e, refl)))
  handle-ahead (parsed cmd n) s e c =
      run_command-ahead s e (record c { buffer = drop n c.buffer }) cmd
  handle-ahead (failed x) s e c = (_, (refl, refl))
  handle-ahead panicked s e c = (_, (refl, refl))

  next_round-ahead :
      (s : S) (e : Bool) (c : ClientState)
      → RoundAhead w
          (next_round exec ctl required password s c)
          (next_round exec ctl required password s (ahead w e c))
  unfolding next_round
  next_round-ahead s e c = elim (Bool-cases (is_empty c.buffer)) [
    | inl h ↦ rw h (_, (refl, (e, refl)))
    | inr h ↦ rw h (handle-ahead (parse_command_from_bytes c.buffer) s e c)
  ]

  step-ahead :
      (rounds : ℕ) (s : S) (e : Bool) (c : ClientState) (r : Round S)
      → next_round exec ctl required password s c ≡ r
      → RoundAhead w r (next_round exec ctl required password s (ahead w e c))
      → ((s' : S) (e' : Bool) (c' : ClientState)
          → AfterAhead w
              (process_rounds exec ctl required password rounds s' c')
              (process_rounds exec ctl required password rounds s' (ahead w e' c')))
      → AfterAhead w
          (process_rounds exec ctl required password (suc rounds) s c)
          (process_rounds exec ctl required password (suc rounds) s (ahead w e c))
  step-ahead rounds s e c (halt a) h (a', (h', k)) ih =
      rw
        (
          process_rounds-step exec ctl required password rounds s c (halt a) h,
          process_rounds-step exec ctl required password rounds s (ahead w e c) (halt a') h',
        )
        k
  step-ahead rounds s e c (go s' c') h (e', h') ih =
      rw
        (
          process_rounds-step exec ctl required password rounds s c (go s' c') h,
          process_rounds-step exec ctl required password rounds s (ahead w e c)
              (go s' (ahead w e' c')) h',
        )
        (ih s' e' c')

  process_rounds-ahead :
      (rounds : ℕ) (s : S) (e : Bool) (c : ClientState)
      → AfterAhead w
          (process_rounds exec ctl required password rounds s c)
          (process_rounds exec ctl required password rounds s (ahead w e c))
  process_rounds-ahead zero s e c = unfold process_rounds in refl
  process_rounds-ahead (suc rounds) s e c =
      step-ahead rounds s e c (next_round exec ctl required password s c) refl
        (next_round-ahead s e c) (process_rounds-ahead rounds)

  -- With more in front of what waits to be written, a read does the same and keeps it in front.
  pub feed-ahead :
      (s : S) (e : Bool) (c : ClientState) (input : Bytes)
      → AfterAhead w
          (feed exec ctl required password s c input)
          (feed exec ctl required password s (ahead w e c) input)
  unfolding feed process
  feed-ahead s e c input = process_rounds-ahead _ s e (record c { buffer = c.buffer ++ input })
