-- ===== src/Store/Types.antt =====
-- The data types of pkg/store/store.go. An `int64` is its 64-bit pattern.
use fast_and_accurate_store.Base.{ℕ, Bytes}

pub data DataType : Type 0 where
  type_string type_list type_map type_set : DataType

pub data EvictionPolicy : Type 0 where
  no_eviction all_keys_random volatile_random all_keys_lru all_keys_lfu : EvictionPolicy

-- `Value` is an `interface{}`; the store only ever puts a string there.
pub record Item : Type 0 where
  pub value : Bytes
  pub type : DataType
  pub expires_at : ℕ
  pub size : ℕ
  pub freq : ℕ
  pub last_access : ℕ
  pub access_id : ℕ

pub record Stats : Type 0 where
  pub keys : ℕ
  pub ttl_keys : ℕ
  pub memory_used : ℕ
  pub max_memory : ℕ
  pub eviction_policy : EvictionPolicy
  pub expired : ℕ

pub record SnapshotEntry : Type 0 where
  pub key : Bytes
  pub value : Bytes
  pub type : DataType
  pub expires_at : ℕ

-- What `Get` returns: the value, `ErrNotFound` or `ErrWrongType`.
pub data GetResult : Type 0 where
  found : Bytes → GetResult
  err_not_found err_wrong_type : GetResult

pub record LruEntry : Type 0 where
  pub key : Bytes
  pub ts : ℕ
  pub version : ℕ

pub record LfuEntry : Type 0 where
  pub key : Bytes
  pub freq : ℕ
  pub ts : ℕ
  pub version : ℕ
