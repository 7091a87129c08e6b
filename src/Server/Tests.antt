-- ===== src/Server/Tests.antt =====
-- The theorems on pkg/server at concrete input.
use fast_and_accurate_store.Base.{
  ℕ, ltb, if◌then◌else◌, ◌≡◌, refl, Bool, Option, str_eq, true, false, none, some, List, [], ◌∷◌,
  ◌++◌, Bytes, codes, arith,
}
use fast_and_accurate_store.Base.Int.{pos}
use fast_and_accurate_store.Server.Slot.{crc16, key_slot}
use fast_and_accurate_store.Server.Cluster.{
  SlotRange, new_ranges, Node, redirect, redirect_at, moved, covers, find_range, arg_slot,
  slots_info,
}
use fast_and_accurate_store.Protocol.Text.{decimal}
use fast_and_accurate_store.Store.Types.{all_keys_random}
use fast_and_accurate_store.Protocol.Text.{scan_int, read_digits, trim, trim_left, trim_right}
use fast_and_accurate_store.Server.Text.{split, split_once, split_from}
use fast_and_accurate_store.Server.Config.{Config, Prefix, fill, check, validate_and_fill}
use fast_and_accurate_store.Persistence.Log.{fsync_every_sec}
use fast_and_accurate_store.Server.Config.Loader.{fsync_of}
use fast_and_accurate_store.Server.Main.{
  Flags, ok, config_of, with_cidrs, with_file, with_ranges, validated, configure,
}
use fast_and_accurate_store.Server.Cluster.Ranges.{
  ranges, scan_or_zero, checked, parse_part, parse_parts, parse_slot_ranges,
}
use fast_and_accurate_store.Server.Eviction.{to_lower, lower_byte, policy_of, parse_eviction_policy}
use fast_and_accurate_store.Server.Cluster.Owner.{
  redirect-agrees, redirect-new_ranges, whole, lone_node,
}

-- The check value of CRC-16/XMODEM.
check_value : crc16 (codes "123456789") ≡ 12739
unfolding crc16
check_value = refl

-- With 65536 slots the division panics.
no_modulus : key_slot (codes "k") (pos 65536) ≡ none
unfolding key_slot
no_modulus = refl

abbrev node_a : Bytes
node_a = codes "a:1"

abbrev node_b : Bytes
node_b = codes "b:1"

abbrev both : List SlotRange
both =
    record { start = pos 0; end = pos 8191; addr = node_a }
    ∷ record { start = pos 8192; end = pos 16383; addr = node_b }
    ∷ []

abbrev first_node : Node
first_node = record { slots = pos 16384; ranges = both; self_addr = node_a; leader = false }

abbrev second_node : Node
second_node = record { slots = pos 16384; ranges = both; self_addr = node_b; leader = true }

abbrev arguments : List Bytes
arguments = codes "foo" ∷ codes "bar" ∷ []

redirected : redirect first_node false arguments ≡ some (some (12182, node_b))
unfolding redirect key_slot redirect_at moved covers
redirected = refl

redirect-agrees_example : redirect second_node false arguments ≡ some none
redirect-agrees_example =
    redirect-agrees first_node second_node false arguments 12182 node_b refl refl redirected refl

redirect-new_ranges_example :
    (find_range 16384 (new_ranges (pos 16384) node_a)
      ≡ (if ltb 16384 16384 then some (whole 16384 node_a) else none))
    × ((slot : ℕ) × ((arg_slot arguments (pos 16384) ≡ some slot)
          × ((find_range slot (new_ranges (pos 16384) node_a) ≡ some (whole 16384 node_a))
              × (redirect (lone_node 16384 node_a false) false arguments ≡ some none))))
redirect-new_ranges_example =
    redirect-new_ranges 16384 16384 node_a false false arguments (omega arith) (omega arith)

info : slots_info (new_ranges (pos 16384) node_a) ≡ codes "0-16383 a:1" ++ 10 ∷ []
unfolding slots_info new_ranges decimal
info = refl

abbrev resolves_all : Bytes → Bool
resolves_all addr = true

range_parsed :
    parse_slot_ranges resolves_all (codes " 0-5:h:1 ,")
    ≡ ranges (record { start = pos 0; end = pos 5; addr = codes "h:1" } ∷ [])
unfolding parse_slot_ranges parse_parts parse_part checked scan_or_zero split split_once split_from
    scan_int read_digits trim trim_left trim_right
range_parsed = refl

-- The flags' defaults, but for the policy of eviction
abbrev flags : Flags
flags = record {
  host = codes "0.0.0.0";
  port = pos 6379;
  aof_path = codes "fas.aof";
  fsync = codes "everysec";
  max_memory = 1024;
  eviction = codes "allkeys-random";
  auth_enabled = false;
  password = [];
  tls_cert = [];
  tls_key = [];
  allow_cidr = [];
  rdb_path = [];
  max_clients = pos 0;
  config_file = [];
  metrics_port = pos 0;
  seed = [];
  seed_tls = false;
  seed_pass = [];
  slot_ranges = [];
}

abbrev no_prefix : Bytes → Option Prefix
no_prefix text = none

abbrev no_file : Bytes → Option (List Bytes)
no_file path = none

abbrev started : Config
started = record (config_of flags fsync_every_sec all_keys_random) { slots = pos 16384 }

configured : configure no_prefix resolves_all no_file flags ≡ ok started
unfolding configure config_of with_cidrs with_file with_ranges validated validate_and_fill fill
    check fsync_of to_lower lower_byte parse_eviction_policy policy_of str_eq
configured = refl
