-- ===== src/EventLoop/Loop/Rounds.antt =====
-- One round of the loop of pkg/server/eventloop_linux.go and pkg/server/eventloop_darwin.go, and what
-- more input behind the buffer changes of it.
use fast_and_accurate_store.Base.{
  ℕ, zero, suc, ◌<◌, ◌≡◌, refl, sym, ◌∙◌, Bool, false, Option, [], ◌∷◌, ◌++◌, Bytes, arith, length,
  drop, inl, inr, Bool-cases, Option-cases,
}
use fast_and_accurate_store.Protocol.Command.{Command}
use fast_and_accurate_store.Protocol.Buffer.{
  Outcome, incomplete, skipped, parsed, failed, panicked, parse_command_from_bytes,
}
use fast_and_accurate_store.Protocol.Consumed.{
  Consumes, parse_command_from_bytes-Consumes, length-drop,
}
use fast_and_accurate_store.Protocol.Extends.{
  Settles, drop-append, parse_command_from_bytes-Settles,
}
use fast_and_accurate_store.Server.Reply.{format_reply}
use fast_and_accurate_store.EventLoop.Client.{ClientState, is_empty, queue_write}
use fast_and_accurate_store.EventLoop.Gate.{authenticate, held_back}
use fast_and_accurate_store.EventLoop.Loop.{
  kept, closed, crashed, unfinished, Round, halt, go, run_command, handle, next_round,
  process_rounds,
}

-- `b` arrives behind what the connection has buffered.
abbrev pub with_input : ClientState → Bytes → ClientState
with_input c b = record c { buffer = c.buffer ++ b }

queue_write-with_input :
    (ctl : Bytes → Bool) (c : ClientState) (output b : Bytes)
    → queue_write ctl (with_input c b) output ≡ with_input (queue_write ctl c output) b
unfolding queue_write
queue_write-with_input ctl c output b = refl

queue_write-buffer :
    (ctl : Bytes → Bool) (c : ClientState) (output : Bytes)
    → (queue_write ctl c output).buffer ≡ c.buffer
unfolding queue_write
queue_write-buffer ctl c output = refl

authenticate-with_input :
    (ctl : Bytes → Bool) (password : Bytes) (c : ClientState) (cmd : Command) (b : Bytes)
    → authenticate ctl password (with_input c b) cmd
      ≡ with_input (authenticate ctl password c cmd) b
unfolding authenticate queue_write
authenticate-with_input ctl password c cmd b = refl

authenticate-buffer :
    (ctl : Bytes → Bool) (password : Bytes) (c : ClientState) (cmd : Command)
    → (authenticate ctl password c cmd).buffer ≡ c.buffer
unfolding authenticate queue_write
authenticate-buffer ctl password c cmd = refl

is_empty-append : (s t : Bytes) → is_empty s ≡ false → is_empty (s ++ t) ≡ false
is_empty-append [] t e = cc
is_empty-append (c ∷ s) t e = refl

module _ {S : Type 0} (exec : S → Command → Option (S × Bytes)) (ctl : Bytes → Bool)
    (required : Bool) (password : Bytes) where
  -- What a round says of the buffer: another round has a shorter one.
  abbrev pub Shrinks : ℕ → Round S → Type 0
  Shrinks n (halt r) = Unit
  Shrinks n (go s c) = length c.buffer < n

  run_command-Shrinks :
      (s : S) (c : ClientState) (cmd : Command) (n : ℕ)
      → length c.buffer < n
      → Shrinks n (run_command exec ctl required password s c cmd)
  unfolding run_command
  run_command-Shrinks s c cmd n l = elim (Bool-cases (held_back required c)) [
    | inl e ↦ rw (e, authenticate-buffer ctl password c cmd) l
    | inr e ↦ elim (Option-cases (exec s cmd)) [
      | inl e' ↦ rw (e, e') tt
      | inr ((s', response), e') ↦ rw (e, e', queue_write-buffer ctl c (format_reply response)) l
    ]
  ]

  handle-Shrinks :
      (o : Outcome) (s : S) (c : ClientState)
      → Consumes (length c.buffer) o
      → Shrinks (length c.buffer) (handle exec ctl required password o s c)
  unfolding handle
  handle-Shrinks incomplete s c h = tt
  handle-Shrinks (skipped n) s c h = tt
  handle-Shrinks (parsed cmd n) s c h =
      run_command-Shrinks s (record c { buffer = drop n c.buffer }) cmd (length c.buffer)
        (omega (arith, length-drop n c.buffer))
  handle-Shrinks (failed e) s c h = tt
  handle-Shrinks panicked s c h = tt

  pub next_round-Shrinks :
      (s : S) (c : ClientState)
      → Shrinks (length c.buffer) (next_round exec ctl required password s c)
  unfolding next_round
  next_round-Shrinks s c = elim (Bool-cases (is_empty c.buffer)) [
    | inl e ↦ rw e tt
    | inr e ↦ rw e (
        handle-Shrinks (parse_command_from_bytes c.buffer) s c
          (parse_command_from_bytes-Consumes c.buffer))
  ]

  -- How a round goes when `b` stands behind the buffer: a round that goes on goes on alike, and one
  -- that closes or panics does so too.
  abbrev pub Carries : S → ClientState → Bytes → Round S → Round S → Type 0
  Carries s c b (halt (kept s' c')) r = (s' ≡ s) × (c' ≡ c)
  Carries s c b (halt (closed s' authed)) r = r ≡ halt (closed s' authed)
  Carries s c b (halt crashed) r = r ≡ halt crashed
  Carries s c b (halt unfinished) r = ⊥
  Carries s c b (go s' c') r = r ≡ go s' (with_input c' b)

  run_command-Carries :
      (s₀ s : S) (c₀ c : ClientState) (cmd : Command) (b : Bytes)
      → Carries s₀ c₀ b
          (run_command exec ctl required password s c cmd)
          (run_command exec ctl required password s (with_input c b) cmd)
  unfolding run_command held_back authenticate
  run_command-Carries s₀ s c₀ c cmd b = elim (Bool-cases (held_back required c)) [
    | inl e ↦ rw e refl
    | inr e ↦ elim (Option-cases (exec s cmd)) [
      | inl e' ↦ rw (e, e') refl
      | inr ((s', response), e') ↦ rw (e, e') refl
    ]
  ]

  handle-Carries :
      (o o' : Outcome) (s : S) (c : ClientState) (b : Bytes)
      → Settles o o'
      → Consumes (length c.buffer) o
      → Carries s c b
          (handle exec ctl required password o s c)
          (handle exec ctl required password o' s (with_input c b))
  unfolding handle
  handle-Carries incomplete o' s c b t h = (refl, refl)
  handle-Carries (skipped n) o' s c b t h = (refl, refl)
  handle-Carries (parsed cmd n) o' s c b t h =
      rw (t, drop-append n c.buffer b h.1)
        (run_command-Carries s s c (record c { buffer = drop n c.buffer }) cmd b)
  handle-Carries (failed e) o' s c b t h = rw t refl
  handle-Carries panicked o' s c b t h = rw t refl

  pub next_round-Carries :
      (s : S) (c : ClientState) (b : Bytes)
      → Carries s c b
          (next_round exec ctl required password s c)
          (next_round exec ctl required password s (with_input c b))
  unfolding next_round
  next_round-Carries s c b = elim (Bool-cases (is_empty c.buffer)) [
    | inl e ↦ rw e (refl, refl)
    | inr e ↦
        rw (e, is_empty-append c.buffer b e)
          (handle-Carries (parse_command_from_bytes c.buffer)
            (parse_command_from_bytes (c.buffer ++ b)) s c b
            (parse_command_from_bytes-Settles c.buffer b)
            (parse_command_from_bytes-Consumes c.buffer))
  ]

  -- More rounds than the buffer has bytes are as good as one more.
  pub process_rounds-step :
      (rounds : ℕ) (s : S) (c : ClientState) (r : Round S)
      → next_round exec ctl required password s c ≡ r
      → process_rounds exec ctl required password (suc rounds) s c
        ≡ elim r [ halt a ↦ a | go s' c' ↦ process_rounds exec ctl required password rounds s' c' ]
  unfolding process_rounds
  process_rounds-step rounds s c r e = rw (process_rounds, e) refl

  enough_step :
      (f g : ℕ) (s : S) (c : ClientState) (r : Round S)
      → next_round exec ctl required password s c ≡ r
      → Shrinks (length c.buffer) r
      → length c.buffer < suc f
      → length c.buffer < suc g
      → ((s' : S) (c' : ClientState)
          → length c'.buffer < f
          → length c'.buffer < g
          → process_rounds exec ctl required password f s' c'
            ≡ process_rounds exec ctl required password g s' c')
      → process_rounds exec ctl required password (suc f) s c
        ≡ process_rounds exec ctl required password (suc g) s c
  enough_step f g s c (halt a) e h l l' ih =
      process_rounds-step f s c (halt a) e ∙ sym (process_rounds-step g s c (halt a) e)
  enough_step f g s c (go s' c') e h l l' ih =
      process_rounds-step f s c (go s' c') e
      ∙ ih s' c' (omega arith) (omega arith)
      ∙ sym (process_rounds-step g s c (go s' c') e)

  pub enough :
      (f g : ℕ) (s : S) (c : ClientState)
      → length c.buffer < f
      → length c.buffer < g
      → process_rounds exec ctl required password f s c
        ≡ process_rounds exec ctl required password g s c
  enough zero g s c l l' = absurd (omega arith)
  enough (suc f) zero s c l l' = absurd (omega arith)
  enough (suc f) (suc g) s c l l' =
      enough_step f g s c (next_round exec ctl required password s c) refl (next_round-Shrinks s c)
        l l' (enough f g)
