-- ===== src/Server/Eviction.antt =====
-- pkg/server/eviction.go: the names of the eviction policies.
use fast_and_accurate_store.Base.{
  ℕ, ◌+◌, ◌&&◌, ◌||◌, Option, none, some, map, Bytes, codes, leb, str_eq, if◌then◌else◌,
}
use fast_and_accurate_store.Store.Types.{
  EvictionPolicy, no_eviction, all_keys_random, volatile_random, all_keys_lru, all_keys_lfu,
}

-- strings.ToLower of ASCII letters
unfoldable pub lower_byte : ℕ → ℕ
lower_byte c = if leb 65 c && leb c 90 then c + 32 else c

unfoldable pub to_lower : Bytes → Bytes
unfolding lower_byte
to_lower s = map lower_byte s

-- The `switch` on the name in lower case
unfoldable pub policy_of : Bytes → Option EvictionPolicy
policy_of name =
    if str_eq name (codes "noeject")
      || (str_eq name (codes "none") || str_eq name (codes "no-eviction"))
    then some no_eviction
    else if str_eq name (codes "allkeys-random")
    then some all_keys_random
    else if str_eq name (codes "volatile-random")
    then some volatile_random
    else if str_eq name (codes "allkeys-lru")
    then some all_keys_lru
    else if str_eq name (codes "allkeys-lfu")
    then some all_keys_lfu
    else none

-- `ParseEvictionPolicy`; none for its error
unfoldable pub parse_eviction_policy : Bytes → Option EvictionPolicy
unfolding to_lower policy_of
parse_eviction_policy p = policy_of (to_lower p)
