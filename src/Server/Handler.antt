-- ===== src/Server/Handler.antt =====
-- What the commands of executeCommand in pkg/server/server.go share. What the clock, the map orders,
-- the disk, the network and other goroutines contribute is an argument.
use fast_and_accurate_store.Base.{
  ℕ, Bool, false, Option, none, some, List, [], ◌∷◌, ◌++◌, Bytes, codes,
}
use fast_and_accurate_store.Persistence.Log.{DiskAnswer}
use fast_and_accurate_store.Store.State.{Store}
use fast_and_accurate_store.Server.State.{Server}

-- What one connection to another node gives: an error and its text, or the first line of the reply.
pub data NetAnswer : Type 0 where
  net_error : Bytes → NetAnswer
  reply_line : Bytes → NetAnswer

-- The two readings of the clock by Set, the order of the loop that evicts and of the one that takes a
-- snapshot, what others do to the store between the two locks of Get, how the files of the snapshot and
-- of the log answer, and how another node answers.
pub record World : Type 0 where
  pub now : ℕ
  pub later : ℕ
  pub order : List Bytes
  pub snapshot_order : List Bytes
  pub others : Store → Store
  pub disk_error : Option Bytes
  pub log_disk : DiskAnswer
  pub dial : Bytes → Bytes → NetAnswer

-- The texts of the store's errors
abbrev pub not_found_text : Bytes
not_found_text = codes "key not found"

abbrev pub wrong_type_text : Bytes
wrong_type_text = codes "WRONGTYPE Operation against a key holding the wrong kind of value"

abbrev pub one_arg : List Bytes → Option Bytes
one_arg [] = none
one_arg (a ∷ []) = some a
one_arg (a ∷ b ∷ args) = none

abbrev pub two_args : List Bytes → Option (Bytes × Bytes)
two_args [] = none
two_args (a ∷ []) = none
two_args (a ∷ b ∷ []) = some (a, b)
two_args (a ∷ b ∷ c ∷ args) = none

-- At least two arguments
abbrev pub first_two : List Bytes → Option (Bytes × Bytes)
first_two [] = none
first_two (a ∷ []) = none
first_two (a ∷ b ∷ args) = some (a, b)

-- The server and the reply, and whether the command is one to broadcast.
pub record Done : Type 0 where
  pub server : Server
  pub reply : Bytes
  pub wrote : Bool

abbrev pub replied : Server → Bytes → Option Done
replied s reply = some (record { server = s; reply = reply; wrote = false })

abbrev pub wrong_args : Bytes → Bytes
wrong_args name = codes "ERR wrong number of arguments for '" ++ (name ++ codes "' command")

abbrev pub readonly_text : Bytes
readonly_text = codes "ERR READONLY replica"
