-- ===== src/Server/Cluster.antt =====
-- pkg/server/cluster.go: which node owns a slot; and the redirection at the head of executeCommand in
-- pkg/server/server.go.
pub mod Owner
pub mod Ranges
use fast_and_accurate_store.Base.{
  ℕ, zero, ◌<◌, ◌^◌, ◌≤◌, ◌≡◌, ◌≢◌, refl, sym, ap, ◌∙◌, inl, inr, Bool, true, false, not, ◌&&◌,
  Option, none, some, List, [], ◌∷◌, ◌++◌, suc, Bytes, leb, str_eq, str_eq_refl, if◌then◌else◌,
  arith, Bool-cases, Option-cases,
}
use fast_and_accurate_store.Base.Int.{ℤ, pos, negsuc}
use fast_and_accurate_store.Protocol.Text.{decimal}
use fast_and_accurate_store.Server.Slot.{key_slot}

pub record SlotRange : Type 0 where
  pub start : ℤ
  pub end : ℤ
  pub addr : Bytes

-- `slots - 1`
unfoldable pub before : ℤ → ℤ
before (pos zero) = negsuc zero
before (pos (suc n)) = pos n
before (negsuc n) = negsuc (suc n)

-- The ranges of `NewClusterState`
unfoldable pub new_ranges : ℤ → Bytes → List SlotRange
unfolding before
new_ranges slots self = record { start = pos 0; end = before slots; addr = self } ∷ []

-- `slot >= r.Start && slot <= r.End`, for a slot that is not negative
unfoldable pub covers : ℕ → SlotRange → Bool
covers slot r = from r.start && up_to r.end
  where
    from : ℤ → Bool
    from (pos n) = leb n slot
    from (negsuc n) = true

    up_to : ℤ → Bool
    up_to (pos n) = leb slot n
    up_to (negsuc n) = false

-- The loop of `Lookup`
unfoldable pub find_range : ℕ → List SlotRange → Option SlotRange
find_range slot [] = none
find_range slot (r ∷ ranges) =
    let rest = find_range slot ranges in if covers slot r then some r else rest

abbrev pub first_addr : List SlotRange → Bytes
first_addr [] = []
first_addr (r ∷ ranges) = r.addr

-- `Lookup`
unfoldable pub lookup_addr : ℕ → List SlotRange → Bytes
unfolding find_range
lookup_addr slot ranges = elim (find_range slot ranges) [
  | none ↦ first_addr ranges
  | some r ↦ r.addr
]

-- `%d`
unfoldable pub int_text : ℤ → Bytes
int_text (pos n) = decimal n
int_text (negsuc n) = b'-' ∷ decimal (suc n)

-- `SlotsInfo`
unfoldable pub slots_info : List SlotRange → Bytes
unfolding int_text
slots_info [] = []
slots_info (r ∷ ranges) =
    int_text r.start ++ (b'-' ∷ (int_text r.end ++ (b' ' ∷ (r.addr ++ 10 ∷ slots_info ranges))))

-- The fields of `Server` that redirection reads.
pub record Node : Type 0 where
  pub slots : ℤ
  pub ranges : List SlotRange
  pub self_addr : Bytes
  pub leader : Bool

-- `target != "" && target != s.selfAddr`, and the reply.
unfoldable pub moved : Node → ℕ → Option (ℕ × Bytes)
unfolding lookup_addr str_eq
moved node slot =
    let target = lookup_addr slot node.ranges in
    if str_eq target []
    then none
    else if str_eq target node.self_addr
    then none
    else some (slot, target)

abbrev pub arg_slot : List Bytes → ℤ → Option ℕ
arg_slot [] slots = some 0
arg_slot (key ∷ args) slots = key_slot key slots

abbrev pub has_args : List Bytes → Bool
has_args [] = false
has_args (key ∷ args) = true

-- Both checks, at the slot of the command: the first for a node that does not lead, the second for
-- a command with arguments.
unfoldable pub redirect_at : Node → Bool → List Bytes → ℕ → Option (ℕ × Bytes)
redirect_at node replay args slot =
    let first = if not node.leader && not replay then moved node slot else none in
    let second = if has_args args then moved node slot else none in
    elim first [ none ↦ second | some reply ↦ some reply ]

-- What is replied in place of executing a command: nothing, or MOVED with a slot and an address; none
-- where the slot of the key panics.
unfoldable pub redirect : Node → Bool → List Bytes → Option (Option (ℕ × Bytes))
redirect node replay args = elim (arg_slot args node.slots) [
  | none ↦ none
  | some slot ↦ some (redirect_at node replay args slot)
]
