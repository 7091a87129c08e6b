-- ===== src/Persistence/Tests.antt =====
-- The theorem on the log at concrete input.
use fast_and_accurate_store.Base.{Bytes, ◌++◌, ◌≡◌, refl, some, List, [], ◌∷◌, codes, arith}
use fast_and_accurate_store.Protocol.Command.{Command}
use fast_and_accurate_store.Protocol.Text.{to_upper}
use fast_and_accurate_store.Persistence.Ends.{read_commands-ends}
use fast_and_accurate_store.Persistence.Log.{
  fsync_always, taken, cut_short, Write, new_aof, write_all, whole, torn, all_taken,
}
use fast_and_accurate_store.Persistence.Torn.{read_commands-torn}
use fast_and_accurate_store.Persistence.Aof.{
  Ending, ended, AllLoggable, read_commands, read_commands-write_all,
}

abbrev set_command : Command
set_command = record { name = codes "SET"; args = codes "a" ∷ codes "b c" ∷ [] }

abbrev second_set : Command
second_set = record { name = codes "SET"; args = [] ∷ codes "x" ∷ [] }

abbrev commands : List Command
commands = set_command ∷ second_set ∷ []

commands-AllLoggable : AllLoggable commands
unfolding to_upper
commands-AllLoggable = (
  (refl, (omega arith, (omega arith, (omega arith, (omega arith, tt))))),
  ((refl, (omega arith, (omega arith, (omega arith, (omega arith, tt))))), tt),
)

read_commands-write_all_example :
    read_commands (write_all (all_taken commands) (new_aof fsync_always [])).file
    ≡ some (commands, ended)
read_commands-write_all_example = read_commands-write_all fsync_always commands commands-AllLoggable

-- The second is cut short.
abbrev writes : List Write
writes = (taken, set_command) ∷ (cut_short 10, second_set) ∷ (taken, set_command) ∷ []

read_commands-torn_example :
    (extra : List Command) × ((e : Ending) × ((read_commands (torn writes) ≡ some (extra, e))
        × (read_commands (write_all writes (new_aof fsync_always [])).file
            ≡ some (whole writes ++ extra, e))))
read_commands-torn_example = read_commands-torn fsync_always writes (commands-AllLoggable.0, tt)

-- A log that is cut inside its second command
abbrev cut_log : Bytes
cut_log = codes "PING" ++ 10 ∷ codes "*1"

read_commands-ends_example :
    (cmds : List Command) × ((e : Ending) × (read_commands cut_log ≡ some (cmds, e)))
read_commands-ends_example = read_commands-ends cut_log
