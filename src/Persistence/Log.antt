-- ===== src/Persistence/Log.antt =====
-- Write of pkg/persistence/aof.go, with what the disk answers. The `bufio.Writer` holds no bytes
-- between two calls, since Write flushes it; what stays of it is its error, with which it refuses every
-- byte behind the first that the file has refused.
use fast_and_accurate_store.Base.{
  ℕ, Bool, true, false, not, List, [], ◌∷◌, ◌++◌, Bytes, take, if◌then◌else◌,
}
use fast_and_accurate_store.Protocol.Writer.{write_command}
use fast_and_accurate_store.Protocol.Command.{Command}

pub data FsyncPolicy : Type 0 where
  fsync_always fsync_every_sec fsync_no : FsyncPolicy

-- `aof.policy == FsyncAlways`
abbrev pub is_always : FsyncPolicy → Bool
is_always fsync_always = true
is_always fsync_every_sec = false
is_always fsync_no = false

-- What the disk does with the bytes of a command: it takes them and syncs; it takes some of them and
-- fails; or it takes them and fails to sync.
pub data DiskAnswer : Type 0 where
  taken : DiskAnswer
  cut_short : ℕ → DiskAnswer
  not_synced : DiskAnswer

-- The bytes of the file, the policy, and whether the writer has an error.
pub record Aof : Type 0 where
  pub file : Bytes
  pub policy : FsyncPolicy
  pub failed : Bool

-- `NewAOF`, for a file that can be opened
abbrev pub new_aof : FsyncPolicy → Bytes → Aof
new_aof policy file = record { file = file; policy = policy; failed = false }

-- WriteCommand and Flush with a writer that has no error, and Sync; the test is whether `Write`
-- returns nil.
unfoldable pub write_through : DiskAnswer → Bytes → Aof → Aof × Bool
write_through taken words aof = (record aof { file = aof.file ++ words }, true)
write_through (cut_short n) words aof =
    (record aof { file = aof.file ++ take n words; failed = true }, false)
write_through not_synced words aof =
    (record aof { file = aof.file ++ words }, not (is_always aof.policy))

-- `Write`: the words of the command behind what the file holds.
unfoldable pub write : DiskAnswer → Command → Aof → Aof × Bool
unfolding write_through
write disk cmd aof =
    if aof.failed
    then (aof, false)
    else write_through disk (write_command (cmd.name ∷ cmd.args)) aof

-- Writes of commands, one behind the other, each with what the disk answers.
abbrev pub Write : Type 0
Write = DiskAnswer × Command

unfoldable pub write_all : List Write → Aof → Aof
unfolding write
write_all [] aof = aof
write_all ((disk, cmd) ∷ writes) aof = write_all writes (write disk cmd aof).0

-- The commands in front of the first one that is cut short
abbrev pub whole : List Write → List Command
whole [] = []
whole ((taken, cmd) ∷ writes) = cmd ∷ whole writes
whole ((cut_short n, cmd) ∷ writes) = []
whole ((not_synced, cmd) ∷ writes) = cmd ∷ whole writes

-- The bytes that the disk took of the first command that is cut short
abbrev pub torn : List Write → Bytes
torn [] = []
torn ((taken, cmd) ∷ writes) = torn writes
torn ((cut_short n, cmd) ∷ writes) = take n (write_command (cmd.name ∷ cmd.args))
torn ((not_synced, cmd) ∷ writes) = torn writes

-- Whether one is
abbrev pub refuses : List Write → Bool
refuses [] = false
refuses ((taken, cmd) ∷ writes) = refuses writes
refuses ((cut_short n, cmd) ∷ writes) = true
refuses ((not_synced, cmd) ∷ writes) = refuses writes

abbrev pub commands_of : List Write → List Command
commands_of [] = []
commands_of ((disk, cmd) ∷ writes) = cmd ∷ commands_of writes

-- The first command that is cut short and those behind it
abbrev pub lost : List Write → List Command
lost [] = []
lost ((taken, cmd) ∷ writes) = lost writes
lost ((cut_short n, cmd) ∷ writes) = cmd ∷ commands_of writes
lost ((not_synced, cmd) ∷ writes) = lost writes

-- Writes that the disk takes
abbrev pub all_taken : List Command → List Write
all_taken [] = []
all_taken (cmd ∷ cmds) = (taken, cmd) ∷ all_taken cmds
