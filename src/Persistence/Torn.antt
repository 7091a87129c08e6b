-- ===== src/Persistence/Torn.antt =====
-- ReadCommands of pkg/persistence/aof.go over a log that the disk has cut short.
use fast_and_accurate_store.Base.{
  ℕ, zero, suc, ◌+◌, ◌≤◌, ◌≡◌, refl, ap, ◌∙◌, Option, some, List, [], ◌∷◌, ◌++◌, append_assoc,
  Bytes, arith, length, length-append, inl, inr, Option-cases,
}
use fast_and_accurate_store.Protocol.Writer.{write_command}
use fast_and_accurate_store.Protocol.Command.{Command}
use fast_and_accurate_store.Protocol.Stream.{
  Reading, command, nothing, eof, unexpected_eof, failed, panicked, parse_command,
}
use fast_and_accurate_store.Protocol.RoundTrip.Streamed.{parse_command-write_command}
use fast_and_accurate_store.Persistence.Log.{FsyncPolicy, new_aof, Write, write_all, whole, torn}
use fast_and_accurate_store.Persistence.Aof.{
  Ending, replay, read_rounds, read_commands, Loggable, AllLoggable, text, write_all-behind,
  make_command-name, read_rounds-command, length-text,
}
use fast_and_accurate_store.Persistence.Ends.{read_commands-ends}

replay-more :
    (r : Reading) (f g : Bytes → Option (List Command × Ending)) (y : List Command × Ending)
    → ((left : Bytes) (x : List Command × Ending) → f left ≡ some x → g left ≡ some x)
    → replay r f ≡ some y
    → replay r g ≡ some y
unfolding replay
replay-more (command cmd left) f g y h e = elim (Option-cases (f left)) [
  | inl n ↦ absurd (cc (rw (replay, n) at e))
  | inr ((cmds, end), s) ↦ rw (replay, h left (cmds, end) s) (rw (replay, s) at e)
]
replay-more (nothing left) f g y h e = h left y e
replay-more eof f g y h e = e
replay-more unexpected_eof f g y h e = e
replay-more (failed error) f g y h e = e
replay-more panicked f g y h e = e

-- More rounds than enough change nothing.
read_rounds-more :
    (rounds more : ℕ) (input : Bytes) (y : List Command × Ending)
    → rounds ≤ more
    → read_rounds rounds input ≡ some y
    → read_rounds more input ≡ some y
unfolding read_rounds
read_rounds-more zero more input y l e = absurd (cc e)
read_rounds-more (suc rounds) zero input y l e = absurd (omega arith)
read_rounds-more (suc rounds) (suc more) input y l e =
    replay-more (parse_command input) _ _ y
      (λ left x. read_rounds-more rounds more left x (omega arith)) e

parse_command-text_append :
    (cmd : Command) (cmds : List Command) (rest : Bytes)
    → Loggable cmd
    → parse_command (text (cmd ∷ cmds) ++ rest) ≡ command cmd (text cmds ++ rest)
unfolding text
parse_command-text_append cmd cmds rest h =
    ap parse_command (append_assoc (write_command (cmd.name ∷ cmd.args)) (text cmds) rest)
    ∙ parse_command-write_command cmd.name cmd.args (text cmds ++ rest) h.1.0 h.1.1
    ∙ ap (λ c. command c (text cmds ++ rest)) (make_command-name cmd h.0)

read_rounds-append :
    (cmds extra : List Command) (rest : Bytes) (least rounds : ℕ) (e : Ending)
    → AllLoggable cmds
    → length cmds + least ≤ rounds
    → read_rounds least rest ≡ some (extra, e)
    → read_rounds rounds (text cmds ++ rest) ≡ some (cmds ++ extra, e)
read_rounds-append [] extra rest least rounds e h l r =
    unfold text in read_rounds-more least rounds rest (extra, e) (omega arith) r
read_rounds-append (cmd ∷ cmds) extra rest least zero e h l r = absurd (omega arith)
read_rounds-append (cmd ∷ cmds) extra rest least (suc rounds) e h l r =
    read_rounds-command rounds (text (cmd ∷ cmds) ++ rest) (text cmds ++ rest) cmd (cmds ++ extra) e
      (parse_command-text_append cmd cmds rest h.0)
      (read_rounds-append cmds extra rest least rounds e h.1 (omega arith) r)

read_commands-append :
    (cmds extra : List Command) (rest : Bytes) (e : Ending)
    → AllLoggable cmds
    → read_commands rest ≡ some (extra, e)
    → read_commands (text cmds ++ rest) ≡ some (cmds ++ extra, e)
unfolding read_commands
read_commands-append cmds extra rest e h r =
    read_rounds-append cmds extra rest (suc (length rest)) (suc (length (text cmds ++ rest))) e h
      (omega (arith, length-append (text cmds) rest, length-text cmds)) r

-- Whatever the disk answers to the writes to an empty log, `ReadCommands` over the file that is left
-- hands out the commands in front of the first one that was cut short, in their order, before anything
-- else, and then goes on and ends as it does over the bytes that the disk took of that one.
pub read_commands-torn :
    (policy : FsyncPolicy) (writes : List Write)
    → AllLoggable (whole writes)
    → (extra : List Command) × ((e : Ending) × ((read_commands (torn writes) ≡ some (extra, e))
          × (read_commands (write_all writes (new_aof policy [])).file
              ≡ some (whole writes ++ extra, e))))
read_commands-torn policy writes h =
    let (extra, (e, r)) = read_commands-ends (torn writes) in
    (
      extra,
      (
        e,
        (
          r,
          ap (λ aof. read_commands aof.file) (write_all-behind writes (new_aof policy []) refl)
              ∙ read_commands-append (whole writes) extra (torn writes) e h r,
        ),
      ),
    )
