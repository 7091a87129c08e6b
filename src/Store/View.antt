-- ===== src/Store/View.antt =====
-- What a client of pkg/store/store.go sees: the reply of a Get of a key at a time.
pub mod Reads
use fast_and_accurate_store.Base.{ℕ, Option, none, some, Bytes, if◌then◌else◌, ◌≡◌, arith}
use fast_and_accurate_store.Base.Table.{lookup}
use fast_and_accurate_store.Store.Types.{
  Item, GetResult, found, err_not_found, err_wrong_type, type_string, type_list, type_map, type_set,
}
use fast_and_accurate_store.Store.State.{Store, is_expired, push_heaps}
use fast_and_accurate_store.Store.Ops.{get_unlocked, touch}

-- The reply to a Get at `now`, given what the map holds for the key.
abbrev pub reply_of : ℕ → Option Item → GetResult
reply_of now none = err_not_found
reply_of now (some item) =
    if is_expired now item
    then err_not_found
    else elim item.type [ type_string ↦ found item.value | _ ↦ err_wrong_type ]

-- `Get`, as a reply.
abbrev pub reply : Store → Bytes → ℕ → GetResult
reply s key now = (get_unlocked s key now).0

pub reply-lookup :
    (s : Store) (key : Bytes) (now : ℕ) → reply s key now ≡ reply_of now (lookup key s.items)
unfolding get_unlocked
reply-lookup s key now = ground arith
