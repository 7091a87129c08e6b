-- ===== src/Server/Session.antt =====
-- A run of commands of clients through executeCommand in pkg/server/server.go, one after the other.
pub mod Step
pub mod Record
pub mod Replicas
pub mod Answered
mod Tests
use fast_and_accurate_store.Base.{
  ℕ, Bool, false, Option, none, some, List, [], ◌∷◌, Bytes, if◌then◌else◌,
}
use fast_and_accurate_store.Protocol.Command.{Command}
use fast_and_accurate_store.Server.State.{Server}
use fast_and_accurate_store.Server.Handler.{World}
use fast_and_accurate_store.Server.Execute.{Verb, verb_of, execute}

-- A command, with what the outside contributes to it
abbrev pub Call : Type 0
Call = World × Command

-- The server and the replies behind the commands; none where one panics.
unfoldable pub run_calls : List Call → Server → Option (Server × List Bytes)
run_calls [] s = some (s, [])
run_calls ((w, cmd) ∷ calls) s = elim (execute w false s cmd) [
  | none ↦ none
  | some (s', reply) ↦ elim (run_calls calls s') [
    | none ↦ none
    | some (s'', replies) ↦ some (s'', reply ∷ replies)
  ]
]

-- The commands whose verb and reply pass a test
abbrev pub told_by : (Verb → Bytes → Bool) → List Call → List Bytes → List Command
told_by test [] replies = []
told_by test (call ∷ calls) [] = []
told_by test ((w, cmd) ∷ calls) (reply ∷ replies) =
    let rest = told_by test calls replies in
    if test (verb_of cmd.name) reply then cmd ∷ rest else rest
