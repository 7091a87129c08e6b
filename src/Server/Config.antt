-- ===== src/Server/Config.antt =====
-- `Config` of pkg/server/server.go and its defaults.
pub mod Loader
use fast_and_accurate_store.Base.{
  ℕ, zero, suc, ◌^◌, ◌*◌, Bool, true, false, not, ◌&&◌, ◌||◌, Option, none, some, List, [], ◌∷◌,
  Bytes, ◌==◌, if◌then◌else◌,
}
use fast_and_accurate_store.Base.Int.{ℤ, pos, negsuc}
use fast_and_accurate_store.Store.Types.{
  EvictionPolicy, no_eviction, all_keys_random, volatile_random, all_keys_lru, all_keys_lfu,
}
use fast_and_accurate_store.Persistence.Log.{FsyncPolicy}
use fast_and_accurate_store.Server.Cluster.{SlotRange}

-- A netip.Prefix is the set of the addresses that it contains.
abbrev pub Prefix : Type 0
Prefix = Bytes → Bool

pub record Config : Type 0 where
  pub host : Bytes
  pub port : ℤ
  pub aof_path : Bytes
  pub fsync_policy : FsyncPolicy
  pub max_memory : ℕ
  pub eviction : EvictionPolicy
  pub auth_enabled : Bool
  pub password : Bytes
  pub tls_cert_path : Bytes
  pub tls_key_path : Bytes
  pub allowed_cidr : List Prefix
  pub rdb_path : Bytes
  pub max_clients : ℤ
  pub metrics_port : ℤ
  pub replica_of : Bytes
  pub replica_use_tls : Bool
  pub replica_pass : Bytes
  pub slots : ℤ
  pub static_slots : List SlotRange

-- `s == ""`
abbrev pub is_blank : Bytes → Bool
is_blank [] = true
is_blank (c ∷ s) = false

-- `Eviction == 0`
abbrev pub is_no_eviction : EvictionPolicy → Bool
is_no_eviction no_eviction = true
is_no_eviction all_keys_random = false
is_no_eviction volatile_random = false
is_no_eviction all_keys_lru = false
is_no_eviction all_keys_lfu = false

-- `Slots == 0`
abbrev pub is_zero : ℤ → Bool
is_zero (pos zero) = true
is_zero (pos (suc n)) = false
is_zero (negsuc n) = false

pub data ConfigError : Type 0 where
  no_password tls_incomplete : ConfigError

-- The defaults that `ValidateAndFill` sets
unfoldable pub fill : Config → Config
fill c = record c {
  max_memory = if c.max_memory == 0 then 1024 * 1024 * 1024 else c.max_memory;
  eviction = if is_no_eviction c.eviction then all_keys_random else c.eviction;
  slots = if is_zero c.slots then pos 16384 else c.slots;
}

-- `(a == "") != (b == "")`
abbrev pub differ : Bool → Bool → Bool
differ true b = not b
differ false b = b

-- The checks of `ValidateAndFill`
unfoldable pub check : Config → Option ConfigError
check c =
    if c.auth_enabled && is_blank c.password
    then some no_password
    else if differ (is_blank c.tls_cert_path) (is_blank c.tls_key_path)
    then some tls_incomplete
    else none

-- `ValidateAndFill`: the config as it leaves it, and its error.
unfoldable pub validate_and_fill : Config → Config × Option ConfigError
unfolding fill check
validate_and_fill c = (fill c, check (fill c))
