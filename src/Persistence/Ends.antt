-- ===== src/Persistence/Ends.antt =====
-- The loop of ReadCommands in pkg/persistence/aof.go ends.
use fast_and_accurate_store.Base.{
  ℕ, zero, suc, ◌<◌, ◌≡◌, refl, Option, none, some, List, ◌∷◌, Bytes, arith, length,
}
use fast_and_accurate_store.Protocol.Command.{Command}
use fast_and_accurate_store.Protocol.Stream.{Reading, parse_command}
use fast_and_accurate_store.Protocol.Shortens.{
  Shortens, shorter_command, shorter_nothing, at_eof, at_unexpected, at_error, at_panic,
  parse_command-Shortens,
}
use fast_and_accurate_store.Persistence.Aof.{Ending, replay, read_rounds, read_commands}

data HasEnded : Option (List Command × Ending) → Type 0 where
  has_ended : {cmds : List Command} {e : Ending} → HasEnded (some (cmds, e))

with_command-HasEnded :
    (cmd : Command) (o : Option (List Command × Ending))
    → HasEnded o
    → HasEnded (elim o [ none ↦ none | some (cmds, e) ↦ some (cmd ∷ cmds, e) ])
with_command-HasEnded cmd o has_ended = has_ended

replay-HasEnded :
    (r : Reading) (n : ℕ) (rest : Bytes → Option (List Command × Ending))
    → Shortens n r
    → ((left : Bytes) → length left < n → HasEnded (rest left))
    → HasEnded (replay r rest)
unfolding replay
replay-HasEnded r n rest (shorter_command {cmd} {left} h) k =
    with_command-HasEnded cmd (rest left) (k left h)
replay-HasEnded r n rest (shorter_nothing {left} h) k = k left h
replay-HasEnded r n rest at_eof k = has_ended
replay-HasEnded r n rest at_unexpected k = has_ended
replay-HasEnded r n rest at_error k = has_ended
replay-HasEnded r n rest at_panic k = has_ended

read_rounds-HasEnded :
    (rounds : ℕ) (input : Bytes) → length input < rounds → HasEnded (read_rounds rounds input)
unfolding read_rounds
read_rounds-HasEnded zero input l = absurd (omega arith)
read_rounds-HasEnded (suc rounds) input l =
    replay-HasEnded (parse_command input) (length input) _ (parse_command-Shortens input)
      (λ left h. read_rounds-HasEnded rounds left (omega arith))

HasEnded-some :
    (o : Option (List Command × Ending))
    → HasEnded o
    → (cmds : List Command) × ((e : Ending) × (o ≡ some (cmds, e)))
HasEnded-some o (has_ended {cmds} {e}) = (cmds, (e, refl))

-- `ReadCommands` ends on every file, at its end, with an error or in a panic: a round more than the
-- file has bytes is enough.
pub read_commands-ends :
    (file : Bytes) → (cmds : List Command) × ((e : Ending) × (read_commands file ≡ some (cmds, e)))
unfolding read_commands
read_commands-ends file =
    HasEnded-some (read_commands file) (read_rounds-HasEnded (suc (length file)) file (omega arith))
