-- ===== src/Server/Execute/Outcome.antt =====
-- The log and the replicas' channels behind executeCommand.
use fast_and_accurate_store.Base.{
  ℕ, ◌≡◌, refl, subst, sym, ap, ◌∙◌, Bool, true, false, not, ◌&&◌, ◌||◌, inl, inr, Bool-cases,
  Option-cases, Option, none, some, Bytes, codes, arith, str_eq, has_prefix, if◌then◌else◌,
}
use fast_and_accurate_store.Protocol.Command.{Command}
use fast_and_accurate_store.Persistence.Log.{DiskAnswer}
use fast_and_accurate_store.Server.Cluster.{redirect}
use fast_and_accurate_store.Server.State.{Server, node_of, offer_all}
use fast_and_accurate_store.Server.Handler.{World, Done}
use fast_and_accurate_store.Server.Keys.{log_command}
use fast_and_accurate_store.Server.Execute.{
  Verb, get, ping, info, cluster, save, bgsave, migrate, unknown, verb_of, run_verb, broadcast,
  finish, moved_text, execute,
}
use fast_and_accurate_store.Server.Execute.Effect.{
  is_set, is_publish, accepted, written, Effect, Effects, no_effect, effect, written-false,
  run_verb-Effects,
}

-- The log and the replicas' channels behind a command
pub record Outcome (disk : DiskAnswer) (cmd : Command) (replay : Bool) (s s' : Server)
    (reply : Bytes) : Type 0 where
  pub log : s'.aof ≡ (
      if accepted (verb_of cmd.name) reply && not replay then log_command disk cmd s.aof else s.aof)
  pub replicas : s'.replicas ≡ (
      if written (verb_of cmd.name) reply && not replay
      then offer_all cmd s.replicas
      else s.replicas)

-- SET and PUBLISH are the commands that are broadcast.
data IsWriteOf (name : Bytes) : Verb → Type 0 where
  named :
      {v : Verb}
      → (str_eq name (codes "SET") || str_eq name (codes "PUBLISH")) ≡ true
      → IsWriteOf name v
  other : {v : Verb} → is_set v ≡ false → is_publish v ≡ false → IsWriteOf name v

if_IsWriteOf :
    (name : Bytes) (b : Bool) (v v' : Verb)
    → IsWriteOf name v
    → IsWriteOf name v'
    → IsWriteOf name (if b then v else v')
if_IsWriteOf name true v v' h h' = h
if_IsWriteOf name false v v' h h' = h'

verb_of-IsWriteOf : (name : Bytes) → IsWriteOf name (verb_of name)
unfolding verb_of
verb_of-IsWriteOf name = elim (Bool-cases (str_eq name (codes "SET"))) [
  | inl h ↦ rw (verb_of, h) (named (ground (arith, h)))
  | inr h ↦ elim (Bool-cases (str_eq name (codes "PUBLISH"))) [
    | inl h' ↦ named (ground (arith, h, h'))
    | inr h' ↦
        rw (verb_of, h, h')
          (if_IsWriteOf name (str_eq name (codes "GET")) get _ (other refl refl) (
            if_IsWriteOf name (str_eq name (codes "PING")) ping _ (other refl refl) (
              if_IsWriteOf name (str_eq name (codes "INFO")) info _ (other refl refl) (
                if_IsWriteOf name (str_eq name (codes "CLUSTER")) cluster _ (other refl refl) (
                  if_IsWriteOf name (str_eq name (codes "SAVE")) save _ (other refl refl) (
                    if_IsWriteOf name (str_eq name (codes "BGSAVE")) bgsave _ (other refl refl) (
                      if_IsWriteOf name (str_eq name (codes "MIGRATE")) migrate unknown
                        (other refl refl) (other refl refl))))))))
  ]
]

broadcast_name :
    (name reply : Bytes) (v : Verb)
    → IsWriteOf name v
    → written v reply ≡ true
    → (str_eq name (codes "SET") || str_eq name (codes "PUBLISH")) ≡ true
broadcast_name name reply v (named h) w = h
broadcast_name name reply v (other h h') w = absurd (cc (written-false v reply h h', w))

abbrev Outcomes : DiskAnswer → Command → Bool → Server → Option (Server × Bytes) → Type 0
Outcomes disk cmd replay s none = Unit
Outcomes disk cmd replay s (some (s', reply)) = Outcome disk cmd replay s s' reply

moved_unwritten :
    (v : Verb) (slot : ℕ) (target : Bytes) → written v (moved_text slot target) ≡ false
unfolding moved_text str_eq has_prefix
moved_unwritten v slot target = ground arith

moved_unaccepted :
    (v : Verb) (slot : ℕ) (target : Bytes) → accepted v (moved_text slot target) ≡ false
unfolding moved_text str_eq
moved_unaccepted v slot target = ground arith

moved-Outcome :
    (disk : DiskAnswer) (cmd : Command) (replay : Bool) (s : Server) (slot : ℕ) (target : Bytes)
    → Outcome disk cmd replay s s (moved_text slot target)
moved-Outcome disk cmd replay s slot target = record {
  log =
      ap (λ b. if b && not replay then log_command disk cmd s.aof else s.aof)
        (sym (moved_unaccepted (verb_of cmd.name) slot target));
  replicas =
      ap (λ b. if b && not replay then offer_all cmd s.replicas else s.replicas)
        (sym (moved_unwritten (verb_of cmd.name) slot target));
}

if_true : {A : Type 0} (b : Bool) (x y : A) → b ≡ true → (if b then x else y) ≡ x
if_true b x y h = rw h refl

if_false : {A : Type 0} (b : Bool) (x y : A) → b ≡ false → (if b then x else y) ≡ y
if_false b x y h = rw h refl

broadcast-aof : (cmd : Command) (s : Server) → (broadcast cmd s).aof ≡ s.aof
unfolding broadcast
broadcast-aof cmd s =
    elim (Bool-cases (str_eq cmd.name (codes "SET") || str_eq cmd.name (codes "PUBLISH"))) [
      | inl h ↦ rw (broadcast, h) refl
      | inr h ↦ rw (broadcast, h) refl
    ]

broadcast-replicas :
    (cmd : Command) (s : Server)
    → (str_eq cmd.name (codes "SET") || str_eq cmd.name (codes "PUBLISH")) ≡ true
    → (broadcast cmd s).replicas ≡ offer_all cmd s.replicas
unfolding broadcast offer_all
broadcast-replicas cmd s h = rw (broadcast, h) refl

first_true : (a b : Bool) → (a && b) ≡ true → a ≡ true
first_true a b h = ground (arith, h)

finish-Outcome :
    (disk : DiskAnswer) (cmd : Command) (replay : Bool) (s : Server) (d : Done)
    → Effect disk (verb_of cmd.name) cmd replay s d
    → Outcome disk cmd replay s (finish cmd replay d).0 (finish cmd replay d).1
finish-Outcome disk cmd replay s d e = elim (Bool-cases (d.wrote && not replay)) [
  | inl h ↦ rw h (record {
    log = broadcast-aof cmd d.server ∙ e.log;
    replicas =
        broadcast-replicas cmd d.server (
          broadcast_name cmd.name d.reply (verb_of cmd.name) (verb_of-IsWriteOf cmd.name)
            (sym e.marked ∙ first_true d.wrote (not replay) h))
        ∙ ap (offer_all cmd) e.replicas
        ∙ sym (
            if_true (written (verb_of cmd.name) d.reply && not replay) (offer_all cmd s.replicas)
              s.replicas (ap (λ b. b && not replay) (sym e.marked) ∙ h));
  })
  | inr h ↦ rw h (record {
    log = e.log;
    replicas =
        e.replicas
        ∙ sym (
            if_false (written (verb_of cmd.name) d.reply && not replay) (offer_all cmd s.replicas)
              s.replicas (ap (λ b. b && not replay) (sym e.marked) ∙ h));
  })
]

switch-Outcomes :
    (disk : DiskAnswer) (cmd : Command) (replay : Bool) (s : Server) (o : Option Done)
    → Effects disk (verb_of cmd.name) cmd replay s o
    → Outcomes disk cmd replay s (elim o [ none ↦ none | some d ↦ some (finish cmd replay d) ])
switch-Outcomes disk cmd replay s o no_effect = tt
switch-Outcomes disk cmd replay s o (effect {d} e) = finish-Outcome disk cmd replay s d e

execute-Outcomes :
    (w : World) (cmd : Command) (replay : Bool) (s : Server)
    → Outcomes w.log_disk cmd replay s (execute w replay s cmd)
unfolding execute
execute-Outcomes w cmd replay s = elim (Option-cases (redirect (node_of s) replay cmd.args)) [
  | inl e ↦ rw (execute, e) tt
  | inr (some (slot, target), e) ↦
      rw (execute, e) (moved-Outcome w.log_disk cmd replay s slot target)
  | inr (none, e) ↦
      rw (execute, e)
        (switch-Outcomes w.log_disk cmd replay s (run_verb w (verb_of cmd.name) cmd replay s)
          (run_verb-Effects w (verb_of cmd.name) cmd replay s))
]

-- What a command that returns has done to the log and to the replicas' channels, told by its reply.
pub execute-Outcome :
    (w : World) (cmd : Command) (replay : Bool) (s s' : Server) (reply : Bytes)
    → execute w replay s cmd ≡ some (s', reply)
    → Outcome w.log_disk cmd replay s s' reply
execute-Outcome w cmd replay s s' reply e =
    subst (Outcomes w.log_disk cmd replay s) e (execute-Outcomes w cmd replay s)
