-- ===== src/EventLoop/Loop/Pipelined.antt =====
-- Several commands at once in the event loops.
use fast_and_accurate_store.Base.{
  ℕ, zero, suc, ◌<◌, ◌≡◌, refl, sym, ap, ◌∙◌, subst, Bool, false, Option, some, List, [], ◌∷◌, ◌++◌,
  append_assoc, append-nil, Bytes, arith, length, drop, drop_append,
}
use fast_and_accurate_store.Protocol.Writer.{write_command}
use fast_and_accurate_store.Protocol.Command.{Command}
use fast_and_accurate_store.Protocol.Buffer.{parsed, parse_command_from_bytes}
use fast_and_accurate_store.Protocol.RoundTrip.Buffered.{parse_command_from_bytes-write_command}
use fast_and_accurate_store.Persistence.Aof.{Loggable, AllLoggable, make_command-name, length-text}
use fast_and_accurate_store.Persistence.Aof
use fast_and_accurate_store.Server.Pipeline.{Runs, done, step, replies_text}
use fast_and_accurate_store.Server.Reply.{format_reply}
use fast_and_accurate_store.EventLoop.Client.{ClientState, is_empty, queue_write, enable_write}
use fast_and_accurate_store.EventLoop.Gate.{held_back}
use fast_and_accurate_store.EventLoop.Loop.{
  kept, halt, go, run_command, handle, next_round, process_rounds, process, feed,
}
use fast_and_accurate_store.EventLoop.Loop.Rounds.{process_rounds-step}

parse-text :
    (cmd : Command) (cmds : List Command)
    → Loggable cmd
    → parse_command_from_bytes (Aof.text (cmd ∷ cmds))
      ≡ parsed cmd (length (write_command (cmd.name ∷ cmd.args)))
unfolding Aof.text
parse-text cmd cmds h =
    parse_command_from_bytes-write_command cmd.name cmd.args (Aof.text cmds) h.1.0 h.1.1
    ∙ ap (λ c. parsed c (length (write_command (cmd.name ∷ cmd.args)))) (make_command-name cmd h.0)

drop-text :
    (cmd : Command) (cmds : List Command)
    → drop (length (write_command (cmd.name ∷ cmd.args))) (Aof.text (cmd ∷ cmds)) ≡ Aof.text cmds
unfolding Aof.text
drop-text cmd cmds = drop_append (write_command (cmd.name ∷ cmd.args)) (Aof.text cmds)

is_empty-text : (cmd : Command) (cmds : List Command) → is_empty (Aof.text (cmd ∷ cmds)) ≡ false
unfolding Aof.text write_command
is_empty-text cmd cmds = refl

nothing_text : Aof.text [] ≡ []
unfolding Aof.text
nothing_text = refl

-- A connection with some input, some output and a flag
abbrev client : ClientState → Bytes → Bytes → Bool → ClientState
client c input output enabled = record c {
  buffer = input;
  write_buffer = c.write_buffer ++ output;
  write_enabled = enabled;
}

module _ {S : Type 0} (exec : S → Command → Option (S × Bytes)) (ctl : Bytes → Bool)
    (required : Bool) (password : Bytes) where
  next_round-text :
      (cmd : Command) (cmds : List Command) (s : S) (c : ClientState)
      → Loggable cmd
      → c.buffer ≡ Aof.text (cmd ∷ cmds)
      → next_round exec ctl required password s c
        ≡ run_command exec ctl required password s (record c { buffer = Aof.text cmds }) cmd
  unfolding next_round handle
  next_round-text cmd cmds s c h e =
      rw (e, is_empty-text cmd cmds, parse-text cmd cmds h, drop-text cmd cmds) refl

  run_command-reply :
      (cmd : Command) (s s' : S) (c : ClientState) (response : Bytes)
      → held_back required c ≡ false
      → exec s cmd ≡ some (s', response)
      → run_command exec ctl required password s c cmd
        ≡ go s' (queue_write ctl c (format_reply response))
  unfolding run_command
  run_command-reply cmd s s' c response h e = rw (run_command, h, e) refl

  next_round-nothing :
      (s : S) (c : ClientState)
      → c.buffer ≡ []
      → next_round exec ctl required password s c ≡ halt (kept s c)
  unfolding next_round
  next_round-nothing s c e = rw (next_round, e) refl

  answered : ClientState → List Command → Bytes → ClientState
  unfolding queue_write
  answered c cmds response =
      queue_write ctl (record c { buffer = Aof.text cmds }) (format_reply response)

  all_rounds :
      (cmds : List Command) (responses : List Bytes) (s s' : S) (rounds : ℕ) (c : ClientState)
      → Runs exec cmds s s' responses
      → AllLoggable cmds
      → held_back required c ≡ false
      → c.buffer ≡ Aof.text cmds
      → length cmds < rounds
      → (e : Bool) × (process_rounds exec ctl required password rounds s c
          ≡ kept s' (client c [] (replies_text format_reply responses) e))
  unfolding answered queue_write enable_write held_back
  all_rounds cmds responses s s' zero c r h g b l = absurd (omega arith)
  all_rounds cmds responses s s' (suc rounds) c done h g b l = (
    c.write_enabled,
    process_rounds-step exec ctl required password rounds s c _
          (next_round-nothing s c (b ∙ nothing_text))
        ∙ ap (λ x. kept s (record c { buffer = x })) (b ∙ nothing_text)
        ∙ ap (λ x. kept s (record c { buffer = []; write_buffer = x }))
            (sym (append-nil c.write_buffer)),
  )
  all_rounds cmds responses s s'' (suc rounds) c
        (step {cmd} {cmds = cs} {s' = s'} {response} {responses = rs} e r) h g b l =
      let (flag, later) =
        all_rounds cs rs s' s'' rounds (answered c cs response) r h.1 g refl (omega arith) in
      (
        flag,
        process_rounds-step exec ctl required password rounds s c _
              (next_round-text cmd cs s c h.0 b ∙ run_command-reply cmd s s' _ response g e)
            ∙ later
            ∙ ap (λ x. kept s'' (record c { buffer = []; write_buffer = x; write_enabled = flag }))
                (append_assoc c.write_buffer (format_reply response)
                  (replies_text format_reply rs)),
      )

  -- A connection that may execute commands, with nothing in its buffer, is sent the words of some
  -- commands at once. Where none of them panics, the server is the one behind them, in their order, and
  -- their replies wait to be written, in the same order, behind what waited before.
  pub feed-text :
      (cmds : List Command) (responses : List Bytes) (s s' : S) (c : ClientState)
      → AllLoggable cmds
      → held_back required c ≡ false
      → c.buffer ≡ []
      → Runs exec cmds s s' responses
      → (enabled : Bool) × (feed exec ctl required password s c (Aof.text cmds)
          ≡ kept s' (record c {
            write_buffer = c.write_buffer ++ replies_text format_reply responses;
            write_enabled = enabled;
          }))
  unfolding feed process held_back
  feed-text cmds responses s s' c h g b r =
      let (flag, e) =
        all_rounds cmds responses s s' (suc (length (c.buffer ++ Aof.text cmds)))
          (record c { buffer = c.buffer ++ Aof.text cmds }) r h g (ap (λ x. x ++ Aof.text cmds) b)
          (enough_rounds c.buffer b) in
      (
        flag,
        e
            ∙ ap
                (λ x. kept s' (record c {
                  buffer = x;
                  write_buffer = c.write_buffer ++ replies_text format_reply responses;
                  write_enabled = flag;
                }))
                (sym b),
      )
    where
      enough_rounds : (x : Bytes) → x ≡ [] → length cmds < suc (length (x ++ Aof.text cmds))
      enough_rounds x e =
          subst (λ y. length cmds < suc (length (y ++ Aof.text cmds))) (sym e)
            (omega (arith, length-text cmds))
