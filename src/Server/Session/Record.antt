-- ===== src/Server/Session/Record.antt =====
-- What a run of commands leaves in the log of pkg/persistence/aof.go.
use fast_and_accurate_store.Base.{
  ◌≡◌, refl, sym, ap, ◌∙◌, subst, Bool, true, false, ◌&&◌, inl, inr, Option-cases, Option, none,
  some, List, [], ◌∷◌, ◌++◌, append-nil, Bytes, if◌then◌else◌,
}
use fast_and_accurate_store.Protocol.Command.{Command}
use fast_and_accurate_store.Persistence.Log.{
  DiskAnswer, taken, cut_short, not_synced, Aof, Write, write, write_all, whole, torn, refuses,
  lost, commands_of,
}
use fast_and_accurate_store.Persistence.Aof.{
  text, behind, write_all-behind, read_commands, ended, AllLoggable, read_commands-text,
}
use fast_and_accurate_store.Server.State.{Server}
use fast_and_accurate_store.Server.Handler.{World}
use fast_and_accurate_store.Server.Keys.{log_command}
use fast_and_accurate_store.Server.Execute.{verb_of, execute}
use fast_and_accurate_store.Server.Execute.Effect.{accepted}
use fast_and_accurate_store.Server.Execute.Outcome.{execute-Outcome}
use fast_and_accurate_store.Server.Session.Step.{with_reply, run_calls-step}
use fast_and_accurate_store.Server.Session.{Call, run_calls, told_by}

-- The SETs that were answered with OK, each with what the disk answers to its write.
abbrev pub writes_of : List Call → List Bytes → List Write
writes_of [] replies = []
writes_of (call ∷ calls) [] = []
writes_of ((w, cmd) ∷ calls) (reply ∷ replies) =
    let rest = writes_of calls replies in
    if accepted (verb_of cmd.name) reply then (w.log_disk, cmd) ∷ rest else rest

-- A log that has been made out of `aof` by the accepted commands
abbrev LogsTo : Aof → List Call → Option (Server × List Bytes) → Type 0
LogsTo aof calls none = Unit
LogsTo aof calls (some (s', replies)) = s'.aof ≡ some (write_all (writes_of calls replies) aof)

write_all-if :
    (b : Bool) (disk : DiskAnswer) (cmd : Command) (rest : List Write) (aof : Aof)
    → write_all (if b then (disk, cmd) ∷ rest else rest) aof
      ≡ write_all rest (if b then (write disk cmd aof).0 else aof)
unfolding write_all
write_all-if true disk cmd rest aof = refl
write_all-if false disk cmd rest aof = refl

log_command-if :
    (b : Bool) (disk : DiskAnswer) (cmd : Command) (aof : Aof)
    → (if b && true then log_command disk cmd (some aof) else some aof)
      ≡ some (if b then (write disk cmd aof).0 else aof)
unfolding write
log_command-if true disk cmd aof = refl
log_command-if false disk cmd aof = refl

with_reply-LogsTo :
    (w : World) (cmd : Command) (calls : List Call) (reply : Bytes) (aof : Aof)
    (o : Option (Server × List Bytes))
    → LogsTo
        (if accepted (verb_of cmd.name) reply then (write w.log_disk cmd aof).0 else aof)
        calls
        o
    → LogsTo aof ((w, cmd) ∷ calls) (with_reply reply o)
with_reply-LogsTo w cmd calls reply aof none h = tt
with_reply-LogsTo w cmd calls reply aof (some (s', replies)) h =
    h
    ∙ ap some (
        sym (
          write_all-if (accepted (verb_of cmd.name) reply) w.log_disk cmd (writes_of calls replies)
            aof))

run_calls-LogsTo :
    (calls : List Call) (s : Server) (aof : Aof)
    → s.aof ≡ some aof
    → LogsTo aof calls (run_calls calls s)
unfolding run_calls write_all
run_calls-LogsTo [] s aof h = h
run_calls-LogsTo ((w, cmd) ∷ calls) s aof h = elim (Option-cases (execute w false s cmd)) [
  | inl e ↦ rw (run_calls, e) tt
  | inr ((s', reply), e) ↦ rw (run_calls-step w cmd calls s s' reply e) (
      with_reply-LogsTo w cmd calls reply aof (run_calls calls s') (
        run_calls-LogsTo calls s' _ (
          (execute-Outcome w cmd false s s' reply e).log
          ∙ ap
              (λ o.
                if accepted (verb_of cmd.name) reply && true
                then log_command w.log_disk cmd o
                else o)
              h
          ∙ log_command-if (accepted (verb_of cmd.name) reply) w.log_disk cmd aof)))
]

-- The log behind any commands is the log before them, whose writer has no error, with the SETs that
-- were answered with OK, in their order, and nothing else, up to the first whose write the disk cuts
-- short. Of that one the log has the bytes that the disk took, and of those behind it, answered with
-- OK all the same, nothing; the writer has an error then, and only then.
pub run_calls-log :
    (calls : List Call) (s s' : Server) (aof : Aof) (replies : List Bytes)
    → s.aof ≡ some aof
    → aof.failed ≡ false
    → run_calls calls s ≡ some (s', replies)
    → s'.aof
      ≡ some (record aof {
        file =
            aof.file ++ (text (whole (writes_of calls replies)) ++ torn (writes_of calls replies));
        failed = refuses (writes_of calls replies);
      })
run_calls-log calls s s' aof replies h f e =
    subst (LogsTo aof calls) e (run_calls-LogsTo calls s aof h)
    ∙ ap some (write_all-behind (writes_of calls replies) aof f)

commands_of-if :
    (b : Bool) (disk : DiskAnswer) (cmd : Command) (rest : List Write) (told : List Command)
    → commands_of rest ≡ told
    → commands_of (if b then (disk, cmd) ∷ rest else rest) ≡ (if b then cmd ∷ told else told)
commands_of-if true disk cmd rest told h = ap (λ l. cmd ∷ l) h
commands_of-if false disk cmd rest told h = h

commands_of-writes_of :
    (calls : List Call) (replies : List Bytes)
    → commands_of (writes_of calls replies) ≡ told_by accepted calls replies
commands_of-writes_of [] replies = refl
commands_of-writes_of (call ∷ calls) [] = refl
commands_of-writes_of ((w, cmd) ∷ calls) (reply ∷ replies) =
    commands_of-if (accepted (verb_of cmd.name) reply) w.log_disk cmd (writes_of calls replies)
      (told_by accepted calls replies) (commands_of-writes_of calls replies)

whole-lost : (writes : List Write) → whole writes ++ lost writes ≡ commands_of writes
whole-lost [] = refl
whole-lost ((taken, cmd) ∷ writes) = ap (λ l. cmd ∷ l) (whole-lost writes)
whole-lost ((cut_short n, cmd) ∷ writes) = refl
whole-lost ((not_synced, cmd) ∷ writes) = ap (λ l. cmd ∷ l) (whole-lost writes)

-- Each SET that was answered with OK is whole in the log or lost.
pub whole-writes_of :
    (calls : List Call) (replies : List Bytes)
    → whole (writes_of calls replies) ++ lost (writes_of calls replies)
      ≡ told_by accepted calls replies
whole-writes_of calls replies =
    whole-lost (writes_of calls replies) ∙ commands_of-writes_of calls replies

-- A server that starts with an empty log and serves any commands leaves a log from which
-- `ReadCommands` gets the SETs in front of the first one that the disk cut short, where it took
-- nothing of that one.
pub read_commands-run_calls :
    (calls : List Call) (s s' : Server) (aof : Aof) (replies : List Bytes)
    → s.aof ≡ some aof
    → aof.file ≡ []
    → aof.failed ≡ false
    → run_calls calls s ≡ some (s', replies)
    → torn (writes_of calls replies) ≡ []
    → AllLoggable (whole (writes_of calls replies))
    → (left : Aof) × ((s'.aof ≡ some left)
        × (read_commands left.file ≡ some (whole (writes_of calls replies), ended)))
read_commands-run_calls calls s s' aof replies h blank f e t l = (
  behind (writes_of calls replies) aof,
  (
    run_calls-log calls s s' aof replies h f e,
    ap read_commands (cc (blank, t, append-nil (text (whole (writes_of calls replies)))))
        ∙ read_commands-text (whole (writes_of calls replies)) l,
  ),
)
