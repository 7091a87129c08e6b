-- ===== src/Server/Session/Step.antt =====
-- The first command of a run of commands.
use fast_and_accurate_store.Base.{
  ◌≡◌, refl, false, inl, inr, Option-cases, Option, none, some, List, ◌∷◌, Bytes,
}
use fast_and_accurate_store.Protocol.Command.{Command}
use fast_and_accurate_store.Server.State.{Server}
use fast_and_accurate_store.Server.Handler.{World}
use fast_and_accurate_store.Server.Execute.{execute}
use fast_and_accurate_store.Server.Session.{Call, run_calls}

abbrev pub with_reply : Bytes → Option (Server × List Bytes) → Option (Server × List Bytes)
with_reply reply none = none
with_reply reply (some (s, replies)) = some (s, reply ∷ replies)

pub run_calls-step :
    (w : World) (cmd : Command) (calls : List Call) (s s' : Server) (reply : Bytes)
    → execute w false s cmd ≡ some (s', reply)
    → run_calls ((w, cmd) ∷ calls) s ≡ with_reply reply (run_calls calls s')
unfolding run_calls
run_calls-step w cmd calls s s' reply e = elim (Option-cases (run_calls calls s')) [
  | inl h ↦ rw (run_calls, e, h) refl
  | inr ((s'', replies), h) ↦ rw (run_calls, e, h) refl
]
