-- ===== src/Persistence/Aof.antt =====
-- ReadCommands of pkg/persistence/aof.go over the bytes of the file, and what Write leaves there.
use fast_and_accurate_store.Base.{
  ℕ, zero, suc, ◌<◌, ◌≤◌, ◌≡◌, refl, sym, ap, ap₂, ◌∙◌, true, false, Option, none, some, List, [],
  ◌∷◌, ◌++◌, append_assoc, append-nil, Bytes, arith, if◌then◌else◌, length, length-append,
}
use fast_and_accurate_store.Protocol.Text.{to_upper}
use fast_and_accurate_store.Protocol.Writer.{write_command}
use fast_and_accurate_store.Protocol.Command.{Command, max_args, make_command}
use fast_and_accurate_store.Protocol.Stream.{
  Reading, command, nothing, eof, unexpected_eof, failed, panicked, parse_command,
}
use fast_and_accurate_store.Persistence.Log.{
  FsyncPolicy, DiskAnswer, taken, cut_short, not_synced, Aof, new_aof, Write, write, write_through,
  write_all, whole, torn, refuses, all_taken,
}
use fast_and_accurate_store.Protocol.RoundTrip.Lines.{BulksFit}
use fast_and_accurate_store.Protocol.RoundTrip.Streamed.{parse_command-write_command}

-- How `ReadCommands` ends: at the end of the file, with an error, or in a panic.
pub data Ending : Type 0 where
  ended broken crashed : Ending

-- What comes of the loop's next read, when `rest` gives what comes of the reads behind it.
unfoldable pub replay :
    Reading → (Bytes → Option (List Command × Ending)) → Option (List Command × Ending)
replay (command cmd left) rest = elim (rest left) [
  | none ↦ none
  | some (cmds, e) ↦ some (cmd ∷ cmds, e)
]
replay (nothing left) rest = rest left
replay eof rest = some ([], ended)
replay unexpected_eof rest = some ([], broken)
replay (failed e) rest = some ([], broken)
replay panicked rest = some ([], crashed)

-- The loop of `ReadCommands`, with a bound on its rounds: the commands that the callback is given.
unfoldable pub read_rounds : ℕ → Bytes → Option (List Command × Ending)
unfolding replay
read_rounds zero input = none
read_rounds (suc rounds) input = replay (parse_command input) λ left. read_rounds rounds left

-- `ReadCommands`; each round but the last takes a byte at least.
unfoldable pub read_commands : Bytes → Option (List Command × Ending)
unfolding read_rounds
read_commands file = read_rounds (suc (length file)) file

-- A command that the parsers return and take back: its name is in upper case, and it is not too
-- long.
abbrev pub Loggable : Command → Type 0
Loggable cmd =
    (to_upper cmd.name ≡ cmd.name)
    × ((length (cmd.name ∷ cmd.args) ≤ max_args) × BulksFit (cmd.name ∷ cmd.args))

abbrev pub AllLoggable : List Command → Type 0
AllLoggable [] = Unit
AllLoggable (cmd ∷ cmds) = Loggable cmd × AllLoggable cmds

-- The words of commands, one behind the other
unfoldable pub text : List Command → Bytes
text [] = []
text (cmd ∷ cmds) = write_command (cmd.name ∷ cmd.args) ++ text cmds

write-failed :
    (disk : DiskAnswer) (cmd : Command) (aof : Aof)
    → aof.failed ≡ true
    → write disk cmd aof ≡ (aof, false)
unfolding write
write-failed disk cmd aof h =
    ap
      (λ b.
        if b then (aof, false) else write_through disk (write_command (cmd.name ∷ cmd.args)) aof)
      h

-- With an error, the writer takes nothing.
write_all-failed :
    (writes : List Write) (aof : Aof) → aof.failed ≡ true → write_all writes aof ≡ aof
unfolding write_all write
write_all-failed [] aof h = refl
write_all-failed ((disk, cmd) ∷ writes) aof h =
    ap (λ r. write_all writes r.0) (write-failed disk cmd aof h) ∙ write_all-failed writes aof h

write-whole :
    (disk : DiskAnswer) (cmd : Command) (aof : Aof)
    → aof.failed ≡ false
    → write disk cmd aof ≡ write_through disk (write_command (cmd.name ∷ cmd.args)) aof
unfolding write
write-whole disk cmd aof h = rw h refl

-- What writes leave of a log
abbrev pub behind : List Write → Aof → Aof
behind writes aof = record aof {
  file = aof.file ++ (text (whole writes) ++ torn writes);
  failed = refuses writes;
}

longer_file :
    (words : Bytes) (writes : List Write) (aof : Aof)
    → behind writes (record aof { file = aof.file ++ words }) ≡ record aof {
      file = aof.file ++ ((words ++ text (whole writes)) ++ torn writes);
      failed = refuses writes;
    }
longer_file words writes aof =
    ap (λ f. record aof { file = f; failed = refuses writes })
      (append_assoc aof.file words (text (whole writes) ++ torn writes)
        ∙ ap (λ r. aof.file ++ r) (sym (append_assoc words (text (whole writes)) (torn writes))))

-- Writes to a log whose writer has no error leave what it held, the commands in front of the first that
-- is cut short, and what the disk took of that one.
pub write_all-behind :
    (writes : List Write) (aof : Aof)
    → aof.failed ≡ false
    → write_all writes aof ≡ behind writes aof
unfolding write_all write_through text
write_all-behind [] aof h =
    ap₂ (λ f b. record aof { file = f; failed = b }) (sym (append-nil aof.file)) h
write_all-behind ((taken, cmd) ∷ writes) aof h =
    ap (λ r. write_all writes r.0) (write-whole taken cmd aof h)
    ∙ write_all-behind writes _ h
    ∙ longer_file (write_command (cmd.name ∷ cmd.args)) writes aof
write_all-behind ((cut_short n, cmd) ∷ writes) aof h =
    ap (λ r. write_all writes r.0) (write-whole (cut_short n) cmd aof h)
    ∙ write_all-failed writes _ refl
write_all-behind ((not_synced, cmd) ∷ writes) aof h =
    ap (λ r. write_all writes r.0) (write-whole not_synced cmd aof h)
    ∙ write_all-behind writes _ h
    ∙ longer_file (write_command (cmd.name ∷ cmd.args)) writes aof

pub make_command-name :
    (cmd : Command) → to_upper cmd.name ≡ cmd.name → make_command cmd.name cmd.args ≡ cmd
unfolding make_command
make_command-name cmd h = ap (λ n. record { name = n; args = cmd.args }) h

pub parse_command-text :
    (cmd : Command) (cmds : List Command)
    → Loggable cmd
    → parse_command (text (cmd ∷ cmds)) ≡ command cmd (text cmds)
unfolding text
parse_command-text cmd cmds h =
    parse_command-write_command cmd.name cmd.args (text cmds) h.1.0 h.1.1
    ∙ ap (λ c. command c (text cmds)) (make_command-name cmd h.0)

read_rounds-eof : (rounds : ℕ) → read_rounds (suc rounds) (text []) ≡ some ([], ended)
unfolding read_rounds text parse_command
read_rounds-eof rounds = refl

pub read_rounds-command :
    (rounds : ℕ) (input left : Bytes) (cmd : Command) (cmds : List Command) (e : Ending)
    → parse_command input ≡ command cmd left
    → read_rounds rounds left ≡ some (cmds, e)
    → read_rounds (suc rounds) input ≡ some (cmd ∷ cmds, e)
unfolding read_rounds
read_rounds-command rounds input left cmd cmds e h₁ h₂ = rw (h₁, h₂) refl

read_rounds-text :
    (cmds : List Command) (rounds : ℕ)
    → AllLoggable cmds
    → length cmds < rounds
    → read_rounds rounds (text cmds) ≡ some (cmds, ended)
read_rounds-text cmds zero h l = absurd (omega arith)
read_rounds-text [] (suc rounds) h l = read_rounds-eof rounds
read_rounds-text (cmd ∷ cmds) (suc rounds) h l =
    read_rounds-command rounds (text (cmd ∷ cmds)) (text cmds) cmd cmds ended
      (parse_command-text cmd cmds h.0) (read_rounds-text cmds rounds h.1 (omega arith))

pub length-text : (cmds : List Command) → length cmds ≤ length (text cmds)
unfolding text write_command
length-text [] = omega arith
length-text (cmd ∷ cmds) =
    omega (arith, length-append (write_command (cmd.name ∷ cmd.args)) (text cmds), length-text cmds)

whole-all_taken : (cmds : List Command) → whole (all_taken cmds) ≡ cmds
whole-all_taken [] = refl
whole-all_taken (cmd ∷ cmds) = ap (λ l. cmd ∷ l) (whole-all_taken cmds)

torn-all_taken : (cmds : List Command) → torn (all_taken cmds) ≡ []
torn-all_taken [] = refl
torn-all_taken (cmd ∷ cmds) = torn-all_taken cmds

pub read_commands-text :
    (cmds : List Command) → AllLoggable cmds → read_commands (text cmds) ≡ some (cmds, ended)
unfolding read_commands
read_commands-text cmds h =
    read_rounds-text cmds (suc (length (text cmds))) h (omega (arith, length-text cmds))

-- `ReadCommands` gives back the commands that `Write` wrote to an empty file, in their order, and
-- ends at the end of the file, where the disk took each of them.
pub read_commands-write_all :
    (policy : FsyncPolicy) (cmds : List Command)
    → AllLoggable cmds
    → read_commands (write_all (all_taken cmds) (new_aof policy [])).file ≡ some (cmds, ended)
read_commands-write_all policy cmds h =
    ap (λ aof. read_commands aof.file) (write_all-behind (all_taken cmds) (new_aof policy []) refl)
    ∙ ap read_commands (cc (append-nil (text cmds), whole-all_taken cmds, torn-all_taken cmds))
    ∙ read_commands-text cmds h
