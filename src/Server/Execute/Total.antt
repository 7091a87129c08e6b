-- ===== src/Server/Execute/Total.antt =====
-- executeCommand returns.
use fast_and_accurate_store.Base.{
  ℕ, ◌^◌, ◌<◌, ◌≡◌, refl, sym, ap, ◌∙◌, subst, Bool, not, ◌&&◌, ◌||◌, inl, inr, Bool-cases,
  Option-cases, Option, none, some, List, [], ◌∷◌, Bytes, codes, str_eq,
}
use fast_and_accurate_store.Base.Int.{pos}
use fast_and_accurate_store.Protocol.Command.{Command}
use fast_and_accurate_store.PubSub
use fast_and_accurate_store.PubSub.Valid.{Valid}
use fast_and_accurate_store.PubSub.Safety.{Published, publish-Published}
use fast_and_accurate_store.Server.Cluster.{arg_slot, redirect, redirect_at}
use fast_and_accurate_store.Server.Cluster.Owner.{key_slot-bound, redirect-slot}
use fast_and_accurate_store.Server.State.{Server, node_of}
use fast_and_accurate_store.Server.Handler.{World, two_args, Done}
use fast_and_accurate_store.Server.Keys.{accept_set, run_set, run_publish}
use fast_and_accurate_store.Server.Info.{info_text}
use fast_and_accurate_store.Server.Execute.{
  Verb, set, get, publish, ping, info, cluster, save, bgsave, migrate, unknown, verb_of, run_verb,
  broadcast, finish, execute,
}
use fast_and_accurate_store.Server.Execute.Quiet.{
  AllQuiet, quiet, replied-AllQuiet, run_get-AllQuiet, run_cluster-AllQuiet, run_save-AllQuiet,
  run_bgsave-AllQuiet, run_migrate-AllQuiet,
}

-- A server of `n` slots whose subscribers are in order
pub record IsReady (n : ℕ) (s : Server) : Type 0 where
  pub slots : s.slot_count ≡ pos n
  pub valid : Valid s.pubsub

-- A command that returns, with such a server behind it
data Returns (n : ℕ) : Option Done → Type 0 where
  returns : {d : Done} → IsReady n d.server → Returns n (some d)

quiet-Returns : (n : ℕ) (s : Server) (o : Option Done) → AllQuiet s o → IsReady n s → Returns n o
quiet-Returns n s o (quiet {d} q) r =
    returns {d = d}
      (record { slots = q.slots ∙ r.slots; valid = subst Valid (sym q.pubsub) r.valid })

run_set-Returns :
    (n : ℕ) (w : World) (cmd : Command) (replay : Bool) (s : Server)
    → IsReady n s
    → Returns n (run_set w cmd replay s)
unfolding run_set accept_set
run_set-Returns n w cmd replay s r = elim (Option-cases (two_args cmd.args)) [
  | inl e ↦ rw (run_set, e) (returns r)
  | inr ((key, value), e) ↦ elim (Bool-cases (s.replica_mode && not replay)) [
    | inl h ↦ rw (run_set, e, h) (returns r)
    | inr h ↦ rw (run_set, e, h) (returns (record { slots = r.slots; valid = r.valid }))
  ]
]

run_publish-Returns :
    (n : ℕ) (cmd : Command) (replay : Bool) (s : Server)
    → IsReady n s
    → Returns n (run_publish cmd replay s)
unfolding run_publish
run_publish-Returns n cmd replay s r = elim (Option-cases (two_args cmd.args)) [
  | inl e ↦ rw (run_publish, e) (returns r)
  | inr ((channel, message), e) ↦ elim (Bool-cases (s.replica_mode && not replay)) [
    | inl h ↦ rw (run_publish, e, h) (returns r)
    | inr h ↦ elim (Option-cases (PubSub.publish channel message s.pubsub)) [
      | inl e' ↦ absurd (subst Published e' (publish-Published channel message s.pubsub r.valid))
      | inr ((pubsub, count), e') ↦
          rw (run_publish, e, h, e')
            (returns (record {
              slots = r.slots;
              valid = subst Published e' (publish-Published channel message s.pubsub r.valid);
            }))
    ]
  ]
]

run_verb-Returns :
    (n : ℕ) (w : World) (v : Verb) (cmd : Command) (replay : Bool) (s : Server)
    → IsReady n s
    → Returns n (run_verb w v cmd replay s)
unfolding run_verb
run_verb-Returns n w set cmd replay s r = run_set-Returns n w cmd replay s r
run_verb-Returns n w publish cmd replay s r = run_publish-Returns n cmd replay s r
run_verb-Returns n w get cmd replay s r = quiet-Returns n s _ (run_get-AllQuiet w cmd s) r
run_verb-Returns n w ping cmd replay s r = quiet-Returns n s _ (replied-AllQuiet s (codes "PONG")) r
run_verb-Returns n w info cmd replay s r = quiet-Returns n s _ (replied-AllQuiet s (info_text s)) r
run_verb-Returns n w cluster cmd replay s r = quiet-Returns n s _ (run_cluster-AllQuiet cmd s) r
run_verb-Returns n w save cmd replay s r = quiet-Returns n s _ (run_save-AllQuiet w s) r
run_verb-Returns n w bgsave cmd replay s r = quiet-Returns n s _ (run_bgsave-AllQuiet s) r
run_verb-Returns n w migrate cmd replay s r = quiet-Returns n s _ (run_migrate-AllQuiet w cmd s) r
run_verb-Returns n w unknown cmd replay s r = quiet-Returns n s _ (replied-AllQuiet s _) r

broadcast-IsReady : (n : ℕ) (cmd : Command) (s : Server) → IsReady n s → IsReady n (broadcast cmd s)
unfolding broadcast
broadcast-IsReady n cmd s r =
    elim (Bool-cases (str_eq cmd.name (codes "SET") || str_eq cmd.name (codes "PUBLISH"))) [
      | inl h ↦ rw (broadcast, h) (record { slots = r.slots; valid = r.valid })
      | inr h ↦ rw (broadcast, h) r
    ]

finish-IsReady :
    (n : ℕ) (cmd : Command) (replay : Bool) (d : Done)
    → IsReady n d.server
    → IsReady n (finish cmd replay d).0
finish-IsReady n cmd replay d r = elim (Bool-cases (d.wrote && not replay)) [
  | inl h ↦ rw h (broadcast-IsReady n cmd d.server r)
  | inr h ↦ rw h r
]

arg_slot-some :
    (args : List Bytes) (n : ℕ)
    → 0 < n
    → n < 2 ^ 16
    → (slot : ℕ) × (arg_slot args (pos n) ≡ some slot)
arg_slot-some [] n h l = (0, refl)
arg_slot-some (key ∷ args) n h l = let (slot, (e, b)) = key_slot-bound key n h l in (slot, e)

data Answers (n : ℕ) : Option (Server × Bytes) → Type 0 where
  answers : {s : Server} {reply : Bytes} → IsReady n s → Answers n (some (s, reply))

switch-Answers :
    (n : ℕ) (cmd : Command) (replay : Bool) (o : Option Done)
    → Returns n o
    → Answers n (elim o [ none ↦ none | some d ↦ some (finish cmd replay d) ])
switch-Answers n cmd replay o (returns {d} r) = answers (finish-IsReady n cmd replay d r)

execute-Answers :
    (n : ℕ) (w : World) (replay : Bool) (s : Server) (cmd : Command)
    → 0 < n
    → n < 2 ^ 16
    → IsReady n s
    → Answers n (execute w replay s cmd)
unfolding execute node_of
execute-Answers n w replay s cmd h l r =
    let (slot, e) = arg_slot-some cmd.args n h l in
    let found : redirect (node_of s) replay cmd.args
        ≡ some (redirect_at (node_of s) replay cmd.args slot) =
      redirect-slot (node_of s) replay cmd.args slot (ap (arg_slot cmd.args) r.slots ∙ e) in
    elim (Option-cases (redirect_at (node_of s) replay cmd.args slot)) [
      | inl e' ↦
          rw (execute, found ∙ ap some e')
            (switch-Answers n cmd replay _ (run_verb-Returns n w (verb_of cmd.name) cmd replay s r))
      | inr (target, e') ↦ rw (execute, found ∙ ap some e') (answers r)
    ]

Answers-some :
    (n : ℕ) (o : Option (Server × Bytes))
    → Answers n o
    → (s' : Server) × ((reply : Bytes) × ((o ≡ some (s', reply)) × IsReady n s'))
Answers-some n o (answers {s} {reply} r) = (s, (reply, (refl, r)))

-- With 1 to 65535 slots, and with subscribers in order, executeCommand returns, and leaves the server
-- so.
pub execute-returns :
    (n : ℕ) (w : World) (replay : Bool) (s : Server) (cmd : Command)
    → 0 < n
    → n < 2 ^ 16
    → IsReady n s
    → (s' : Server) × ((reply : Bytes) × ((execute w replay s cmd ≡ some (s', reply))
          × IsReady n s'))
execute-returns n w replay s cmd h l r =
    Answers-some n (execute w replay s cmd) (execute-Answers n w replay s cmd h l r)
