-- ===== src/Server/Execute/Effect.antt =====
-- What executeCommand leaves in the log and in the replicas' channels, told by its reply.
use fast_and_accurate_store.Base.{
  ◌≡◌, refl, sym, ap, ◌∙◌, Bool, true, false, not, ◌&&◌, ◌||◌, inl, inr, Bool-cases, Option-cases,
  Option, none, some, ◌++◌, Bytes, codes, arith, str_eq, has_prefix, if◌then◌else◌,
}
use fast_and_accurate_store.Protocol.Command.{Command}
use fast_and_accurate_store.Persistence.Log.{DiskAnswer, Aof}
use fast_and_accurate_store.PubSub
use fast_and_accurate_store.Server.Reply.{integer_prefix}
use fast_and_accurate_store.Server.State.{Server}
use fast_and_accurate_store.Server.Handler.{
  World, two_args, Done, replied, wrong_args, readonly_text,
}
use fast_and_accurate_store.Server.Keys.{log_command, accept_set, run_set, run_publish}
use fast_and_accurate_store.Server.Info.{info_text}
use fast_and_accurate_store.Server.Execute.Quiet.{
  AllQuiet, quiet, replied-AllQuiet, run_get-AllQuiet, run_cluster-AllQuiet, run_save-AllQuiet,
  run_bgsave-AllQuiet, run_migrate-AllQuiet,
}
use fast_and_accurate_store.Server.Execute.{
  Verb, set, get, publish, ping, info, cluster, save, bgsave, migrate, unknown, run_verb,
}

abbrev pub is_set : Verb → Bool
is_set set = true
is_set get = false
is_set publish = false
is_set ping = false
is_set info = false
is_set cluster = false
is_set save = false
is_set bgsave = false
is_set migrate = false
is_set unknown = false

abbrev pub is_publish : Verb → Bool
is_publish set = false
is_publish get = false
is_publish publish = true
is_publish ping = false
is_publish info = false
is_publish cluster = false
is_publish save = false
is_publish bgsave = false
is_publish migrate = false
is_publish unknown = false

-- A SET that was answered with OK
abbrev pub accepted : Verb → Bytes → Bool
accepted v reply = is_set v && str_eq reply (codes "OK")

-- That, or a PUBLISH that was answered with a number
abbrev pub written : Verb → Bytes → Bool
written v reply = accepted v reply || (is_publish v && has_prefix integer_prefix reply)

-- What a command did, by its reply: the log has it if it was accepted and is not replayed, and it is
-- to be broadcast if it was written.
pub record Effect (disk : DiskAnswer) (v : Verb) (cmd : Command) (replay : Bool) (s : Server)
    (d : Done) : Type 0 where
  pub log :
      d.server.aof
      ≡ (if accepted v d.reply && not replay then log_command disk cmd s.aof else s.aof)
  pub replicas : d.server.replicas ≡ s.replicas
  pub marked : d.wrote ≡ written v d.reply

pub data Effects (disk : DiskAnswer) (v : Verb) (cmd : Command) (replay : Bool) (s : Server)
    : Option Done → Type 0 where
  no_effect : Effects disk v cmd replay s none
  effect : {d : Done} → Effect disk v cmd replay s d → Effects disk v cmd replay s (some d)

replied-Effects :
    (disk : DiskAnswer) (v : Verb) (cmd : Command) (replay : Bool) (s : Server) (reply : Bytes)
    → accepted v reply ≡ false
    → written v reply ≡ false
    → Effects disk v cmd replay s (replied s reply)
replied-Effects disk v cmd replay s reply h h' =
    effect {d = record { server = s; reply = reply; wrote = false }} (record {
      log = ap (λ b. if b && not replay then log_command disk cmd s.aof else s.aof) (sym h);
      replicas = refl;
      marked = sym h';
    })

swapped : (b : Bool) (x y : Option Aof) → (if b then x else y) ≡ (if not b then y else x)
swapped true x y = refl
swapped false x y = refl

run_set-Effects :
    (w : World) (cmd : Command) (replay : Bool) (s : Server)
    → Effects w.log_disk set cmd replay s (run_set w cmd replay s)
unfolding run_set accept_set str_eq has_prefix
run_set-Effects w cmd replay s = elim (Option-cases (two_args cmd.args)) [
  | inl e ↦
      rw (run_set, e)
        (replied-Effects w.log_disk set cmd replay s (wrong_args (codes "set")) refl refl)
  | inr ((key, value), e) ↦ elim (Bool-cases (s.replica_mode && not replay)) [
    | inl h ↦
        rw (run_set, e, h) (replied-Effects w.log_disk set cmd replay s readonly_text refl refl)
    | inr h ↦
        rw (run_set, e, h)
          (effect (record {
            log = swapped replay s.aof (log_command w.log_disk cmd s.aof);
            replicas = refl;
            marked = refl;
          }))
  ]
]

run_publish-Effects :
    (disk : DiskAnswer) (cmd : Command) (replay : Bool) (s : Server)
    → Effects disk publish cmd replay s (run_publish cmd replay s)
unfolding run_publish str_eq has_prefix
run_publish-Effects disk cmd replay s = elim (Option-cases (two_args cmd.args)) [
  | inl e ↦
      rw (run_publish, e)
        (replied-Effects disk publish cmd replay s (wrong_args (codes "publish")) refl refl)
  | inr ((channel, message), e) ↦ elim (Bool-cases (s.replica_mode && not replay)) [
    | inl h ↦
        rw (run_publish, e, h) (replied-Effects disk publish cmd replay s readonly_text refl refl)
    | inr h ↦ elim (Option-cases (PubSub.publish channel message s.pubsub)) [
      | inl e' ↦ rw (run_publish, e, h, e') no_effect
      | inr ((pubsub, count), e') ↦
          rw (run_publish, e, h, e')
            (effect (record { log = refl; replicas = refl; marked = refl }))
    ]
  ]
]

pub written-false :
    (v : Verb) (reply : Bytes) → is_set v ≡ false → is_publish v ≡ false → written v reply ≡ false
written-false v reply h h' = ground (arith, h, h')

-- A quiet command of another verb than SET and PUBLISH
quiet-Effects :
    (disk : DiskAnswer) (v : Verb) (cmd : Command) (replay : Bool) (s : Server) (o : Option Done)
    → is_set v ≡ false
    → is_publish v ≡ false
    → AllQuiet s o
    → Effects disk v cmd replay s o
quiet-Effects disk v cmd replay s o h h' (quiet {d} q) = effect {d = d} (record {
  log =
      q.log
      ∙ ap
          (λ b.
            if (b && str_eq d.reply (codes "OK")) && not replay
            then log_command disk cmd s.aof
            else s.aof)
          (sym h);
  replicas = q.replicas;
  marked = q.marked ∙ sym (written-false v d.reply h h');
})

pub run_verb-Effects :
    (w : World) (v : Verb) (cmd : Command) (replay : Bool) (s : Server)
    → Effects w.log_disk v cmd replay s (run_verb w v cmd replay s)
unfolding run_verb
run_verb-Effects w set cmd replay s = run_set-Effects w cmd replay s
run_verb-Effects w publish cmd replay s = run_publish-Effects w.log_disk cmd replay s
run_verb-Effects w get cmd replay s =
    quiet-Effects w.log_disk get cmd replay s _ refl refl (run_get-AllQuiet w cmd s)
run_verb-Effects w ping cmd replay s =
    quiet-Effects w.log_disk ping cmd replay s _ refl refl (replied-AllQuiet s (codes "PONG"))
run_verb-Effects w info cmd replay s =
    quiet-Effects w.log_disk info cmd replay s _ refl refl (replied-AllQuiet s (info_text s))
run_verb-Effects w cluster cmd replay s =
    quiet-Effects w.log_disk cluster cmd replay s _ refl refl (run_cluster-AllQuiet cmd s)
run_verb-Effects w save cmd replay s =
    quiet-Effects w.log_disk save cmd replay s _ refl refl (run_save-AllQuiet w s)
run_verb-Effects w bgsave cmd replay s =
    quiet-Effects w.log_disk bgsave cmd replay s _ refl refl (run_bgsave-AllQuiet s)
run_verb-Effects w migrate cmd replay s =
    quiet-Effects w.log_disk migrate cmd replay s _ refl refl (run_migrate-AllQuiet w cmd s)
run_verb-Effects w unknown cmd replay s =
    quiet-Effects w.log_disk unknown cmd replay s _ refl refl
      (replied-AllQuiet s (codes "ERR unknown command '" ++ (cmd.name ++ codes "'")))
