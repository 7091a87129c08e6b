-- ===== src/Server/Cluster/Owner.antt =====
-- Who executes a command by pkg/server/slot.go, pkg/server/cluster.go and executeCommand.
use fast_and_accurate_store.Base.{
  ℕ, zero, suc, ◌<◌, ◌^◌, ◌%◌, ◌≡◌, refl, sym, ap, ◌∙◌, inl, inr, Bool, false, none, some, List, [],
  ◌∷◌, Bytes, str_eq_iff, ltb, lt→ltb, if◌then◌else◌, arith, Option-cases,
}
use fast_and_accurate_store.Base.Int.{pos}
use fast_and_accurate_store.Server.Slot.{crc16, key_slot}
use fast_and_accurate_store.Server.Cluster.{
  SlotRange, new_ranges, before, covers, find_range, lookup_addr, Node, moved, arg_slot,
  redirect_at, redirect,
}

-- With 1 to 65535 slots every key has a slot, and it is below their number.
pub key_slot-bound :
    (key : Bytes) (n : ℕ)
    → 0 < n
    → n < 2 ^ 16
    → (slot : ℕ) × ((key_slot key (pos n) ≡ some slot) × (slot < n))
unfolding key_slot
key_slot-bound key zero h l = absurd (omega arith)
key_slot-bound key (suc n) h l = (crc16 key % suc n, (ground arith, omega arith))

moved_self :
    (node : Node) (slot : ℕ)
    → lookup_addr slot node.ranges ≡ node.self_addr
    → moved node slot ≡ none
unfolding moved
moved_self node slot e = ground (arith, e, str_eq_iff (lookup_addr slot node.ranges) node.self_addr)

moved-target :
    (node : Node) (slot s : ℕ) (target : Bytes)
    → moved node slot ≡ some (s, target)
    → lookup_addr slot node.ranges ≡ target
unfolding moved
moved-target node slot s target e = ground (arith, e)

redirect_at-none :
    (node : Node) (replay : Bool) (args : List Bytes) (slot : ℕ)
    → moved node slot ≡ none
    → redirect_at node replay args slot ≡ none
unfolding redirect_at
redirect_at-none node replay args slot h = ground (arith, h)

redirect_at-some :
    (node : Node) (replay : Bool) (args : List Bytes) (slot s : ℕ) (target : Bytes)
    → redirect_at node replay args slot ≡ some (s, target)
    → moved node slot ≡ some (s, target)
unfolding redirect_at
redirect_at-some node replay args slot s target e = ground (arith, e)

pub redirect-slot :
    (node : Node) (replay : Bool) (args : List Bytes) (slot : ℕ)
    → arg_slot args node.slots ≡ some slot
    → redirect node replay args ≡ some (redirect_at node replay args slot)
unfolding redirect
redirect-slot node replay args slot e = rw (redirect, e) refl

redirect-panic :
    (node : Node) (replay : Bool) (args : List Bytes)
    → arg_slot args node.slots ≡ none
    → redirect node replay args ≡ none
unfolding redirect
redirect-panic node replay args e = rw (redirect, e) refl

none-ne-some : {A : Type 0} {x : A} → ¬ (none ≡ some x)
none-ne-some e = cc

redirect-none :
    (node : Node) (replay : Bool) (args : List Bytes) (slot : ℕ)
    → arg_slot args node.slots ≡ some slot
    → moved node slot ≡ none
    → redirect node replay args ≡ some none
redirect-none node replay args slot e h =
    redirect-slot node replay args slot e ∙ ap some (redirect_at-none node replay args slot h)

some-injective : {A : Type 0} {x y : A} → some x ≡ some y → x ≡ y
some-injective e = cc

-- If a node `a` answers a client's command with MOVED to the address of a node `b`, and both have
-- the same ranges and the same number of slots, then `b` does not redirect the command, whether it
-- leads or not.
pub redirect-agrees :
    (a b : Node) (replay : Bool) (args : List Bytes) (s : ℕ) (target : Bytes)
    → a.slots ≡ b.slots
    → a.ranges ≡ b.ranges
    → redirect a false args ≡ some (some (s, target))
    → target ≡ b.self_addr
    → redirect b replay args ≡ some none
redirect-agrees a b replay args s target es er h ht = elim (Option-cases (arg_slot args a.slots)) [
  | inl e ↦ absurd (none-ne-some (sym (redirect-panic a false args e) ∙ h))
  | inr (slot, e) ↦ redirect-none b replay args slot (ap (arg_slot args) (sym es) ∙ e) (
      moved_self b slot (
        ap (lookup_addr slot) (sym er)
        ∙ moved-target a slot s target (
            redirect_at-some a false args slot s target
              (some-injective (sym (redirect-slot a false args slot e) ∙ h)))
        ∙ ht))
]

arg_slot-bound :
    (args : List Bytes) (n : ℕ)
    → 0 < n
    → n < 2 ^ 16
    → (slot : ℕ) × ((arg_slot args (pos n) ≡ some slot) × (slot < n))
arg_slot-bound [] n h l = (0, (refl, h))
arg_slot-bound (key ∷ args) n h l = key_slot-bound key n h l

-- The range of `NewClusterState`
abbrev pub whole : ℕ → Bytes → SlotRange
whole n self = record { start = pos 0; end = before (pos n); addr = self }

find_range-one :
    (slot : ℕ) (r : SlotRange) → find_range slot (r ∷ []) ≡ (if covers slot r then some r else none)
unfolding find_range
find_range-one slot r = refl

covers-whole : (slot n : ℕ) (self : Bytes) → covers slot (whole n self) ≡ ltb slot n
unfolding covers before
covers-whole slot zero self = ground arith
covers-whole slot (suc n) self = ground arith

find_range-new_ranges :
    (slot n : ℕ) (self : Bytes)
    → find_range slot (new_ranges (pos n) self) ≡ (if ltb slot n then some (whole n self) else none)
unfolding new_ranges
find_range-new_ranges slot n self =
    find_range-one slot (whole n self)
    ∙ ap (λ b. if b then some (whole n self) else none) (covers-whole slot n self)

lookup_addr-found :
    (slot : ℕ) (ranges : List SlotRange) (r : SlotRange)
    → find_range slot ranges ≡ some r
    → lookup_addr slot ranges ≡ r.addr
unfolding lookup_addr
lookup_addr-found slot ranges r e = rw (lookup_addr, e) refl

-- A node that has the map of `NewClusterState`
abbrev pub lone_node : ℕ → Bytes → Bool → Node
lone_node n self leader = record {
  slots = pos n;
  ranges = new_ranges (pos n) self;
  self_addr = self;
  leader = leader;
}

-- The loop of `Lookup` finds the range of `NewClusterState` for the slots 0 to `n - 1`, and no range
-- for any other. With 1 to 65535 slots the slot of every command is one of those, and a node with that
-- map answers no command with MOVED.
pub redirect-new_ranges :
    (n k : ℕ) (self : Bytes) (leader replay : Bool) (args : List Bytes)
    → 0 < n
    → n < 2 ^ 16
    → (find_range k (new_ranges (pos n) self) ≡ (if ltb k n then some (whole n self) else none))
      × ((slot : ℕ) × ((arg_slot args (pos n) ≡ some slot)
            × ((find_range slot (new_ranges (pos n) self) ≡ some (whole n self))
                × (redirect (lone_node n self leader) replay args ≡ some none))))
redirect-new_ranges n k self leader replay args h l =
    let (slot, (e, below)) = arg_slot-bound args n h l in
    let found : find_range slot (new_ranges (pos n) self) ≡ some (whole n self) =
      find_range-new_ranges slot n self
      ∙ ap (λ b. if b then some (whole n self) else none) (lt→ltb slot n below) in
    (
      find_range-new_ranges k n self,
      (
        slot,
        (
          e,
          (
            found,
            redirect-none (lone_node n self leader) replay args slot e
                (moved_self _ slot (lookup_addr-found slot _ _ found)),
          ),
        ),
      ),
    )
