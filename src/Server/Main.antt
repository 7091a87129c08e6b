-- ===== src/Server/Main.antt =====
-- `main` of cmd/fas/main.go, from the flags to the configuration. Whether netip.ParsePrefix and
-- net.ResolveTCPAddr take a text, and the configuration file, are arguments.
use fast_and_accurate_store.Base.{
  ℕ, Bool, true, false, Option, none, some, List, [], ◌∷◌, ◌++◌, Bytes, if◌then◌else◌,
}
use fast_and_accurate_store.Base.Int.{ℤ, pos}
use fast_and_accurate_store.Protocol.Text.{trim}
use fast_and_accurate_store.Store.Types.{EvictionPolicy}
use fast_and_accurate_store.Server.Text.{split}
use fast_and_accurate_store.Server.Eviction.{to_lower, parse_eviction_policy}
use fast_and_accurate_store.Server.Cluster.Ranges.{Ranges, ranges, RangeError, parse_slot_ranges}
use fast_and_accurate_store.Server.Config.{Config, Prefix, is_blank, ConfigError, validate_and_fill}
use fast_and_accurate_store.Persistence.Log.{FsyncPolicy}
use fast_and_accurate_store.Server.Config.Loader.{LoadError, Loaded, loaded, fsync_of, load_lines}
use fast_and_accurate_store.Server.Config.Loader

-- The values of the flags, but for `-eventloop`
pub record Flags : Type 0 where
  pub host : Bytes
  pub port : ℤ
  pub aof_path : Bytes
  pub fsync : Bytes
  pub max_memory : ℕ
  pub eviction : Bytes
  pub auth_enabled : Bool
  pub password : Bytes
  pub tls_cert : Bytes
  pub tls_key : Bytes
  pub allow_cidr : Bytes
  pub rdb_path : Bytes
  pub max_clients : ℤ
  pub config_file : Bytes
  pub metrics_port : ℤ
  pub seed : Bytes
  pub seed_tls : Bool
  pub seed_pass : Bytes
  pub slot_ranges : Bytes

-- What log.Fatalf ends the program for.
pub data Fatal : Type 0 where
  bad_fsync bad_policy bad_cidr : Fatal
  no_config_file : Fatal
  bad_config_file : LoadError → Fatal
  bad_ranges : RangeError → Fatal
  bad_config : ConfigError → Fatal

pub data Step (A : Type 0) : Type 0 where
  ok : A → Step A
  fatal : Fatal → Step A

infixl 5 ◌>>=◌
abbrev pub ◌>>=◌ : {A B : Type 0} → Step A → (A → Step B) → Step B
ok a >>= f = f a
fatal e >>= f = fatal e

abbrev or_fatal : {A : Type 0} → Option A → Fatal → Step A
or_fatal none e = fatal e
or_fatal (some a) e = ok a

-- The config of the flags
unfoldable pub config_of : Flags → FsyncPolicy → EvictionPolicy → Config
config_of f policy eviction = record {
  host = f.host;
  port = f.port;
  aof_path = f.aof_path;
  fsync_policy = policy;
  max_memory = f.max_memory;
  eviction = eviction;
  auth_enabled = f.auth_enabled;
  password = f.password;
  tls_cert_path = f.tls_cert;
  tls_key_path = f.tls_key;
  allowed_cidr = [];
  rdb_path = f.rdb_path;
  max_clients = f.max_clients;
  metrics_port = f.metrics_port;
  replica_of = f.seed;
  replica_use_tls = f.seed_tls;
  replica_pass = f.seed_pass;
  slots = pos 0;
  static_slots = [];
}

module _ (parse_prefix : Bytes → Option Prefix) (resolves : Bytes → Bool)
    (read_file : Bytes → Option (List Bytes)) where
  -- The loop over the parts of `-allow-cidr`
  unfoldable pub add_cidrs : List Bytes → Config → Step Config
  unfolding trim
  add_cidrs [] c = ok c
  add_cidrs (part ∷ parts) c = elim (is_blank (trim part)) [
    | true ↦ add_cidrs parts c
    | false ↦ elim (parse_prefix (trim part)) [
      | none ↦ fatal bad_cidr
      | some prefix ↦ add_cidrs parts (record c { allowed_cidr = c.allowed_cidr ++ prefix ∷ [] })
    ]
  ]

  unfoldable pub with_cidrs : Flags → Config → Step Config
  unfolding split
  with_cidrs f c = if is_blank f.allow_cidr then ok c else add_cidrs (split b',' f.allow_cidr) c

  abbrev of_loaded : Loaded → Step Config
  of_loaded (loaded c) = ok c
  of_loaded (Loader.refused e) = fatal (bad_config_file e)

  -- The configuration file, which overrides the flags
  unfoldable pub with_file : Flags → Config → Step Config
  unfolding load_lines
  with_file f c = if is_blank f.config_file then ok c else elim (read_file f.config_file) [
    | none ↦ fatal no_config_file
    | some lines ↦ of_loaded (load_lines lines c)
  ]

  abbrev of_ranges : Config → Ranges → Step Config
  of_ranges c (ranges rs) = ok (record c { static_slots = rs })
  of_ranges c (Ranges.refused e) = fatal (bad_ranges e)

  unfoldable pub with_ranges : Flags → Config → Step Config
  unfolding parse_slot_ranges
  with_ranges f c =
      if is_blank f.slot_ranges
      then ok c
      else of_ranges c (parse_slot_ranges resolves f.slot_ranges)

  abbrev accept : Config → Option ConfigError → Step Config
  accept c none = ok c
  accept c (some e) = fatal (bad_config e)

  unfoldable pub validated : Config → Step Config
  unfolding validate_and_fill
  validated c = accept (validate_and_fill c).0 (validate_and_fill c).1

  -- `main` up to the server
  unfoldable pub configure : Flags → Step Config
  unfolding fsync_of to_lower parse_eviction_policy config_of with_cidrs with_file with_ranges
      validated
  configure f = do
    policy ← or_fatal (fsync_of (to_lower f.fsync)) bad_fsync
    eviction ← or_fatal (parse_eviction_policy f.eviction) bad_policy
    c ← with_cidrs f (config_of f policy eviction)
    c' ← with_file f c
    c'' ← with_ranges f c'
    validated c''
