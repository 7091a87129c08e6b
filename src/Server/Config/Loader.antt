-- ===== src/Server/Config/Loader.antt =====
-- pkg/server/config_loader.go: the lines of the configuration file, as bufio.Scanner gives them.
use fast_and_accurate_store.Base.{
  Bool, true, ◌||◌, Option, none, some, List, [], ◌∷◌, Bytes, codes, str_eq, has_prefix,
  if◌then◌else◌,
}
use fast_and_accurate_store.Base.Int.{ℤ}
use fast_and_accurate_store.Protocol.Text.{trim}
use fast_and_accurate_store.Server.Text.{split_once, parse_int, int64_of}
use fast_and_accurate_store.Server.Eviction.{to_lower, parse_eviction_policy}
use fast_and_accurate_store.Server.Config.{Config, is_blank}
use fast_and_accurate_store.Persistence.Log.{FsyncPolicy, fsync_always, fsync_every_sec, fsync_no}

-- The keys of the `switch`
pub data Key : Type 0 where
  host port aof rdb fsync auth require_pass max_memory max_clients max_memory_policy tls_cert
        tls_key :
      Key
  metrics_port seed seed_tls seed_pass unknown : Key

abbrev names : List (Bytes × Key)
names =
    (codes "host", host)
    ∷ (codes "port", port)
    ∷ (codes "aof", aof)
    ∷ (codes "rdb", rdb)
    ∷ (codes "fsync", fsync)
    ∷ (codes "auth", auth)
    ∷ (codes "requirepass", require_pass)
    ∷ (codes "maxmemory", max_memory)
    ∷ (codes "maxclients", max_clients)
    ∷ (codes "maxmemory-policy", max_memory_policy)
    ∷ (codes "tls-cert", tls_cert)
    ∷ (codes "tls-key", tls_key)
    ∷ (codes "metrics-port", metrics_port)
    ∷ (codes "seed", seed)
    ∷ (codes "seed-tls", seed_tls)
    ∷ (codes "seed-pass", seed_pass)
    ∷ []

unfoldable pub find_key : Bytes → List (Bytes × Key) → Key
find_key name [] = unknown
find_key name ((other, key) ∷ rest) =
    let later = find_key name rest in if str_eq name other then key else later

unfoldable pub key_of : Bytes → Key
unfolding find_key
key_of name = find_key name names

-- The errors of LoadConfigFile
pub data LoadError : Type 0 where
  invalid_line invalid_port invalid_fsync invalid_max_memory invalid_max_clients unknown_policy :
      LoadError
  invalid_metrics_port : LoadError

pub data Loaded : Type 0 where
  loaded : Config → Loaded
  refused : LoadError → Loaded

-- A number, or the error of its key.
abbrev pub with_int : Bytes → LoadError → (ℤ → Config) → Loaded
with_int val error set_field = elim (parse_int val) [
  | none ↦ refused error
  | some n ↦ loaded (set_field n)
]

unfoldable pub fsync_of : Bytes → Option FsyncPolicy
fsync_of val =
    if str_eq val (codes "always")
    then some fsync_always
    else if str_eq val (codes "everysec")
    then some fsync_every_sec
    else if str_eq val (codes "no")
    then some fsync_no
    else none

-- `strings.ToLower(val) == "true"`
unfoldable pub is_true : Bytes → Bool
unfolding to_lower
is_true val = str_eq (to_lower val) (codes "true")

-- The `switch`
unfoldable pub set_key : Key → Bytes → Config → Loaded
unfolding fsync_of is_true parse_int
set_key host val c = loaded (record c { host = val })
set_key port val c = with_int val invalid_port λ n. record c { port = n }
set_key aof val c = loaded (record c { aof_path = val })
set_key rdb val c = loaded (record c { rdb_path = val })
set_key fsync val c = elim (fsync_of (to_lower val)) [
  | none ↦ refused invalid_fsync
  | some policy ↦ loaded (record c { fsync_policy = policy })
]
set_key auth val c = loaded (record c { auth_enabled = is_true val })
set_key require_pass val c = loaded (record c { password = val })
set_key max_memory val c = with_int val invalid_max_memory λ n. record c { max_memory = int64_of n }
set_key max_clients val c = with_int val invalid_max_clients λ n. record c { max_clients = n }
set_key max_memory_policy val c = elim (parse_eviction_policy val) [
  | none ↦ refused unknown_policy
  | some policy ↦ loaded (record c { eviction = policy })
]
set_key tls_cert val c = loaded (record c { tls_cert_path = val })
set_key tls_key val c = loaded (record c { tls_key_path = val })
set_key metrics_port val c = with_int val invalid_metrics_port λ n. record c { metrics_port = n }
set_key seed val c = loaded (record c { replica_of = val; auth_enabled = true })
set_key seed_tls val c = loaded (record c { replica_use_tls = is_true val })
set_key seed_pass val c = loaded (record c { replica_pass = val })
set_key unknown val c = loaded c

-- A line that was trimmed
unfoldable pub load_trimmed : Bytes → Config → Loaded
unfolding split_once key_of set_key to_lower trim has_prefix
load_trimmed line c =
    if is_blank line || has_prefix (codes "#") line then loaded c else elim (split_once b'=' line) [
      | none ↦ refused invalid_line
      | some (key, val) ↦ set_key (key_of (to_lower (trim key))) (trim val) c
    ]

-- The loop of LoadConfigFile
unfoldable pub load_lines : List Bytes → Config → Loaded
unfolding load_trimmed
load_lines [] c = loaded c
load_lines (line ∷ lines) c = elim (load_trimmed (trim line) c) [
  | refused error ↦ refused error
  | loaded c' ↦ load_lines lines c'
]
