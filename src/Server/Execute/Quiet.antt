-- ===== src/Server/Execute/Quiet.antt =====
-- The commands of executeCommand that write neither the log nor to the replicas.
use fast_and_accurate_store.Base.{
  ◌≡◌, ◌⊎◌, refl, Bool, true, false, inl, inr, Bool-cases, Option-cases, Option, none, some, List,
  [], ◌∷◌, ◌++◌, Bytes, codes, str_eq, if◌then◌else◌,
}
use fast_and_accurate_store.Protocol.Text.{to_upper}
use fast_and_accurate_store.Protocol.Writer.{write_command}
use fast_and_accurate_store.Protocol.Command.{Command}
use fast_and_accurate_store.Store.Types.{GetResult, found, err_not_found, err_wrong_type}
use fast_and_accurate_store.Store.Ops
use fast_and_accurate_store.Server.Config.{is_blank}
use fast_and_accurate_store.Server.Cluster.{slots_info}
use fast_and_accurate_store.Server.State.{Server}
use fast_and_accurate_store.Server.Handler.{
  NetAnswer, net_error, reply_line, World, one_arg, first_two, Done, replied, wrong_args,
}
use fast_and_accurate_store.Server.Keys.{run_get}
use fast_and_accurate_store.Server.Info.{cluster_info, cluster_nodes, run_cluster}
use fast_and_accurate_store.Server.Saving.{save_snapshot, run_save, run_bgsave}
use fast_and_accurate_store.Server.Migrate.{is_refusal, send_key, migrate_key, run_migrate}

-- A command that is not a write does not panic and leaves the log, the replicas, the subscribers and
-- the number of slots alone.
pub record Quiet (s : Server) (d : Done) : Type 0 where
  pub log : d.server.aof ≡ s.aof
  pub replicas : d.server.replicas ≡ s.replicas
  pub marked : d.wrote ≡ false
  pub pubsub : d.server.pubsub ≡ s.pubsub
  pub slots : d.server.slot_count ≡ s.slot_count

pub data AllQuiet (s : Server) : Option Done → Type 0 where
  quiet : {d : Done} → Quiet s d → AllQuiet s (some d)

if_AllQuiet :
    (s : Server) (b : Bool) (x y : Option Done)
    → AllQuiet s x
    → AllQuiet s y
    → AllQuiet s (if b then x else y)
if_AllQuiet s true x y h h' = h
if_AllQuiet s false x y h h' = h'

pub replied-AllQuiet : (s : Server) (reply : Bytes) → AllQuiet s (replied s reply)
replied-AllQuiet s reply =
    quiet (record { log = refl; replicas = refl; marked = refl; pubsub = refl; slots = refl })

pub run_get-AllQuiet : (w : World) (cmd : Command) (s : Server) → AllQuiet s (run_get w cmd s)
unfolding run_get
run_get-AllQuiet w cmd s = elim (Option-cases (one_arg cmd.args)) [
  | inl e ↦ rw (run_get, e) (replied-AllQuiet s (wrong_args (codes "get")))
  | inr (key, e) ↦
      rw (run_get, e)
        (quiet (record { log = refl; replicas = refl; marked = refl; pubsub = refl; slots = refl }))
]

words-AllQuiet :
    (args : List Bytes) (s : Server) (name : Bytes)
    → AllQuiet s (run_cluster (record { name = name; args = args }) s)
unfolding run_cluster
words-AllQuiet [] s name = replied-AllQuiet s (wrong_args (codes "cluster"))
words-AllQuiet (sub ∷ args) s name =
    if_AllQuiet s (str_eq (to_upper sub) (codes "INFO")) _ _ (replied-AllQuiet s (cluster_info s)) (
      if_AllQuiet s (str_eq (to_upper sub) (codes "NODES")) _ _
        (replied-AllQuiet s (cluster_nodes s))
        (if_AllQuiet s (str_eq (to_upper sub) (codes "SLOTS")) _ _
          (replied-AllQuiet s (slots_info s.ranges))
          (replied-AllQuiet s (codes "ERR unknown subcommand '" ++ (sub ++ codes "'")))))

pub run_cluster-AllQuiet : (cmd : Command) (s : Server) → AllQuiet s (run_cluster cmd s)
run_cluster-AllQuiet cmd s = words-AllQuiet cmd.args s cmd.name

-- What a quiet command leaves alone
abbrev SameFiles : Server → Server → Type 0
SameFiles s s' =
    (s'.aof ≡ s.aof)
    × ((s'.replicas ≡ s.replicas) × ((s'.pubsub ≡ s.pubsub) × (s'.slot_count ≡ s.slot_count)))

answered-AllQuiet :
    (s s' : Server) (error : Option Bytes)
    → SameFiles s s'
    → AllQuiet s (elim error [
      | none ↦ replied s' (codes "OK")
      | some text ↦ replied s' (codes "ERR " ++ text)
    ])
answered-AllQuiet s s' none h =
    quiet (record { log = h.0; replicas = h.1.0; marked = refl; pubsub = h.1.1.0; slots = h.1.1.1 })
answered-AllQuiet s s' (some text) h =
    quiet (record { log = h.0; replicas = h.1.0; marked = refl; pubsub = h.1.1.0; slots = h.1.1.1 })

save_snapshot-SameFiles : (w : World) (s : Server) → SameFiles s (save_snapshot w s).0
unfolding save_snapshot
save_snapshot-SameFiles w s = elim (Option-cases w.disk_error) [
  | inl e ↦ rw e (refl, (refl, (refl, refl)))
  | inr (text, e) ↦ rw e (refl, (refl, (refl, refl)))
]

pub run_save-AllQuiet : (w : World) (s : Server) → AllQuiet s (run_save w s)
unfolding run_save
run_save-AllQuiet w s = elim (Bool-cases (is_blank s.config.rdb_path)) [
  | inl h ↦ rw (run_save, h) (replied-AllQuiet s _)
  | inr h ↦
      rw (run_save, h)
        (answered-AllQuiet s (save_snapshot w s).0 (save_snapshot w s).1
          (save_snapshot-SameFiles w s))
]

pub run_bgsave-AllQuiet : (s : Server) → AllQuiet s (run_bgsave s)
unfolding run_bgsave
run_bgsave-AllQuiet s = elim (Bool-cases (is_blank s.config.rdb_path)) [
  | inl h ↦ rw (run_bgsave, h) (replied-AllQuiet s _)
  | inr h ↦
      rw (run_bgsave, h)
        (if_AllQuiet s s.bg_saving _ _ (replied-AllQuiet s (codes "ERR BGSAVE already in progress"))
          (quiet
            (record { log = refl; replicas = refl; marked = refl; pubsub = refl; slots = refl })))
]

NetAnswer-cases :
    (a : NetAnswer)
    → (((text : Bytes) × (a ≡ net_error text))) ⊎ ((line : Bytes) × (a ≡ reply_line line))
NetAnswer-cases (net_error text) = inl (text, refl)
NetAnswer-cases (reply_line line) = inr (line, refl)

GetResult-cases :
    (r : GetResult)
    → ((value : Bytes) × (r ≡ found value)) ⊎ ((r ≡ err_not_found) ⊎ (r ≡ err_wrong_type))
GetResult-cases (found value) = inl (value, refl)
GetResult-cases err_not_found = inr (inl refl)
GetResult-cases err_wrong_type = inr (inr refl)

send_key-SameFiles :
    (w : World) (key value target : Bytes) (s : Server)
    → SameFiles s (send_key w key value target s).0
unfolding send_key
send_key-SameFiles w key value target s =
    elim (NetAnswer-cases (w.dial target (write_command (codes "SET" ∷ key ∷ value ∷ [])))) [
      | inl (text, e) ↦ rw (send_key, e) (refl, (refl, (refl, refl)))
      | inr (line, e) ↦ elim (Bool-cases (is_refusal line)) [
        | inl h ↦ rw (send_key, e, h) (refl, (refl, (refl, refl)))
        | inr h ↦ rw (send_key, e, h) (refl, (refl, (refl, refl)))
      ]
    ]

migrate_key-SameFiles :
    (w : World) (key target : Bytes) (s : Server) → SameFiles s (migrate_key w key target s).0
unfolding migrate_key
migrate_key-SameFiles w key target s =
    elim (GetResult-cases (Ops.get_with_now w.others s.store key w.now).0) [
      | inl (value, e) ↦
          rw (migrate_key, e)
            (send_key-SameFiles w key value target
              (record s { store = (Ops.get_with_now w.others s.store key w.now).1 }))
      | inr (inl e) ↦ rw (migrate_key, e) (refl, (refl, (refl, refl)))
      | inr (inr e) ↦ rw (migrate_key, e) (refl, (refl, (refl, refl)))
    ]

pub run_migrate-AllQuiet :
    (w : World) (cmd : Command) (s : Server) → AllQuiet s (run_migrate w cmd s)
unfolding run_migrate
run_migrate-AllQuiet w cmd s = elim (Option-cases (first_two cmd.args)) [
  | inl e ↦ rw (run_migrate, e) (replied-AllQuiet s (wrong_args (codes "migrate")))
  | inr ((key, target), e) ↦
      rw (run_migrate, e)
        (answered-AllQuiet s (migrate_key w key target s).0 (migrate_key w key target s).1
          (migrate_key-SameFiles w key target s))
]
