-- ===== src/Server/Info.antt =====
-- INFO and CLUSTER of executeCommand in pkg/server/server.go.
use fast_and_accurate_store.Base.{
  ℕ, ◌-◌, ◌^◌, Option, [], ◌∷◌, ◌++◌, Bytes, codes, ltb, str_eq, if◌then◌else◌,
}
use fast_and_accurate_store.Protocol.Text.{decimal, to_upper}
use fast_and_accurate_store.Protocol.Command.{Command}
use fast_and_accurate_store.Store.Ops
use fast_and_accurate_store.Server.Cluster.{int_text, slots_info}
use fast_and_accurate_store.Server.State.{Server}
use fast_and_accurate_store.Server.Handler.{Done, replied, wrong_args}

-- `%d` of an `int64`
unfoldable pub int64_text : ℕ → Bytes
unfolding decimal
int64_text n = if ltb n (2 ^ 63) then decimal n else b'-' ∷ decimal (2 ^ 64 - n)

-- The reply to INFO
unfoldable pub info_text : Server → Bytes
unfolding Ops.stats int64_text
info_text s =
    let stats = Ops.stats s.store in
    codes "keys:"
    ++ (decimal stats.keys
        ++ (10 ∷ codes "keys_with_ttl:"
            ++ (decimal stats.ttl_keys
                ++ (10 ∷ codes "expired:"
                    ++ (int64_text stats.expired
                        ++ (10 ∷ codes "memory_used:"
                            ++ (int64_text stats.memory_used
                                ++ (10 ∷ codes "max_memory:"
                                    ++ (int64_text stats.max_memory
                                        ++ (10 ∷ codes "leader:"
                                            ++ (s.leader_addr ++ 10 ∷ [])))))))))))

-- `clusterInfo` and `clusterNodes`
unfoldable pub cluster_info : Server → Bytes
unfolding int_text
cluster_info s =
    codes "cluster_state:ok"
    ++ (10 ∷ codes "cluster_slots_assigned:"
        ++ (int_text s.slot_count
            ++ (10 ∷ codes "cluster_slots_ok:"
                ++ (int_text s.slot_count
                    ++ (10 ∷ codes "leader:" ++ (s.leader_addr ++ 10 ∷ []))))))

unfoldable pub cluster_nodes : Server → Bytes
cluster_nodes s = s.leader_addr ++ (codes " master - 0 0 connected" ++ 10 ∷ [])

unfoldable pub run_cluster : Command → Server → Option Done
unfolding cluster_info cluster_nodes slots_info to_upper
run_cluster cmd s = elim cmd.args [
  | [] ↦ replied s (wrong_args (codes "cluster"))
  | sub ∷ args ↦
      if str_eq (to_upper sub) (codes "INFO")
      then replied s (cluster_info s)
      else if str_eq (to_upper sub) (codes "NODES")
      then replied s (cluster_nodes s)
      else if str_eq (to_upper sub) (codes "SLOTS")
      then replied s (slots_info s.ranges)
      else replied s (codes "ERR unknown subcommand '" ++ (sub ++ codes "'"))
]
