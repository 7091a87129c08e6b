-- ===== src/EventLoop/Loop/Idle.antt =====
-- When the loop over the commands has nothing to do, in pkg/server/eventloop_linux.go and
-- pkg/server/eventloop_darwin.go.
use fast_and_accurate_store.Base.{
  ℕ, zero, suc, refl, ap, subst, ◌≡◌, ◌∙◌, ◌⊎◌, Bool, true, Option, [], ◌++◌, append-nil, Bytes,
  length, drop, inl, inr, Bool-cases, Option-cases,
}
use fast_and_accurate_store.Protocol.Command.{Command}
use fast_and_accurate_store.Protocol.Buffer.{
  Outcome, incomplete, skipped, parsed, failed, panicked, parse_command_from_bytes,
}
use fast_and_accurate_store.EventLoop.Client.{ClientState, is_empty}
use fast_and_accurate_store.EventLoop.Gate.{held_back}
use fast_and_accurate_store.EventLoop.Loop.{
  After, kept, closed, crashed, unfinished, Round, halt, go, run_command, handle, next_round,
  process_rounds, process, feed,
}
use fast_and_accurate_store.EventLoop.Loop.Rounds.{process_rounds-step}

-- The loop has nothing to do with such a buffer: no command stands in front of it.
abbrev pub Stops : Outcome → Type 0
Stops incomplete = Unit
Stops (skipped n) = Unit
Stops (parsed cmd n) = ⊥
Stops (failed e) = ⊥
Stops panicked = ⊥

abbrev pub Idle : Bytes → Type 0
Idle b = (is_empty b ≡ true) ⊎ Stops (parse_command_from_bytes b)

module _ {S : Type 0} (exec : S → Command → Option (S × Bytes)) (ctl : Bytes → Bool)
    (required : Bool) (password : Bytes) where
  handle-idle :
      (o : Outcome) (s : S) (c : ClientState)
      → Stops o
      → handle exec ctl required password o s c ≡ halt (kept s c)
  unfolding handle
  handle-idle incomplete s c h = refl
  handle-idle (skipped n) s c h = refl
  handle-idle (parsed cmd n) s c h = absurd h
  handle-idle (failed e) s c h = absurd h
  handle-idle panicked s c h = absurd h

  next_round-Idle :
      (s : S) (c : ClientState)
      → Idle c.buffer
      → next_round exec ctl required password s c ≡ halt (kept s c)
  unfolding next_round
  next_round-Idle s c (inl h) = rw h refl
  next_round-Idle s c (inr h) = elim (Bool-cases (is_empty c.buffer)) [
    | inl e ↦ rw e refl
    | inr e ↦ rw e (handle-idle (parse_command_from_bytes c.buffer) s c h)
  ]

  -- With nothing to do, a read of nothing changes nothing.
  pub feed-Idle :
      (s : S) (c : ClientState) → Idle c.buffer → feed exec ctl required password s c [] ≡ kept s c
  unfolding feed process
  feed-Idle s c h =
      ap (λ buffer. process exec ctl required password s (record c { buffer = buffer }))
        (append-nil c.buffer)
      ∙ process_rounds-step exec ctl required password _ s c _ (next_round-Idle s c h)

  -- What a round ends with that keeps the connection.
  abbrev pub Ends : Round S → Type 0
  Ends (halt (kept s c)) = Idle c.buffer
  Ends (halt (closed s authed)) = Unit
  Ends (halt crashed) = Unit
  Ends (halt unfinished) = Unit
  Ends (go s c) = Unit

  run_command-Ends :
      (s : S) (c : ClientState) (cmd : Command)
      → Ends (run_command exec ctl required password s c cmd)
  unfolding run_command
  run_command-Ends s c cmd = elim (Bool-cases (held_back required c)) [
    | inl h ↦ rw h tt
    | inr h ↦ elim (Option-cases (exec s cmd)) [
      | inl x ↦ rw (h, x) tt
      | inr ((s', response), x) ↦ rw (h, x) tt
    ]
  ]

  handle-Ends :
      (o : Outcome) (s : S) (c : ClientState)
      → o ≡ parse_command_from_bytes c.buffer
      → Ends (handle exec ctl required password o s c)
  unfolding handle
  handle-Ends incomplete s c e = inr (subst Stops e tt)
  handle-Ends (skipped n) s c e = inr (subst Stops e tt)
  handle-Ends (parsed cmd n) s c e = run_command-Ends s (record c { buffer = drop n c.buffer }) cmd
  handle-Ends (failed x) s c e = tt
  handle-Ends panicked s c e = tt

  next_round-Ends : (s : S) (c : ClientState) → Ends (next_round exec ctl required password s c)
  unfolding next_round
  next_round-Ends s c = elim (Bool-cases (is_empty c.buffer)) [
    | inl h ↦ rw h (inl h)
    | inr h ↦ rw h (handle-Ends (parse_command_from_bytes c.buffer) s c refl)
  ]

  abbrev pub KeepsIdle : After S → Type 0
  KeepsIdle a = Ends (halt a)

  rounds_step :
      (rounds : ℕ) (s : S) (c : ClientState) (r : Round S)
      → next_round exec ctl required password s c ≡ r
      → Ends r
      → ((s' : S) (c' : ClientState)
          → KeepsIdle (process_rounds exec ctl required password rounds s' c'))
      → KeepsIdle (process_rounds exec ctl required password (suc rounds) s c)
  rounds_step rounds s c (halt a) e h ih =
      rw (process_rounds-step exec ctl required password rounds s c (halt a) e) h
  rounds_step rounds s c (go s' c') e h ih =
      rw (process_rounds-step exec ctl required password rounds s c (go s' c') e) (ih s' c')

  process_rounds-KeepsIdle :
      (rounds : ℕ) (s : S) (c : ClientState)
      → KeepsIdle (process_rounds exec ctl required password rounds s c)
  process_rounds-KeepsIdle zero s c = unfold process_rounds in tt
  process_rounds-KeepsIdle (suc rounds) s c =
      rounds_step rounds s c (next_round exec ctl required password s c) refl (next_round-Ends s c)
        (process_rounds-KeepsIdle rounds)

  -- After a read there is nothing left to do.
  pub feed-KeepsIdle :
      (s : S) (c : ClientState) (input : Bytes)
      → KeepsIdle (feed exec ctl required password s c input)
  unfolding feed process
  feed-KeepsIdle s c input =
      process_rounds-KeepsIdle (suc (length (c.buffer ++ input))) s
        (record c { buffer = c.buffer ++ input })
