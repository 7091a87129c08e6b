-- ===== src/Server/Slot.antt =====
-- pkg/server/slot.go: the slot of a key. A `uint16` is a number below 2 ^ 16.
use Prim.Native.Nat.{bit_xor}
use fast_and_accurate_store.Base.{
  ℕ, zero, suc, ◌*◌, ◌%◌, ◌^◌, Option, none, some, [], ◌∷◌, Bytes, leb, ◌==◌, if◌then◌else◌,
}
use fast_and_accurate_store.Base.Int.{ℤ, pos, negsuc}

-- One round of the inner loop; the top bit is set from 2 ^ 15 on.
unfoldable pub crc_round : ℕ → ℕ
crc_round crc = if leb (2 ^ 15) crc then bit_xor (crc * 2 % 2 ^ 16) 4129 else crc * 2 % 2 ^ 16

unfoldable pub crc_rounds : ℕ → ℕ → ℕ
unfolding crc_round
crc_rounds zero crc = crc
crc_rounds (suc rounds) crc = crc_rounds rounds (crc_round crc)

unfoldable pub crc_from : ℕ → Bytes → ℕ
unfolding crc_rounds
crc_from crc [] = crc
crc_from crc (b ∷ data_left) = crc_from (crc_rounds 8 (bit_xor crc (b * 2 ^ 8 % 2 ^ 16))) data_left

-- `crc16`
unfoldable pub crc16 : Bytes → ℕ
unfolding crc_from
crc16 input = crc_from 0 input

-- `keySlot`; none where `uint16(slots)` is 0 and the division panics.
unfoldable pub key_slot : Bytes → ℤ → Option ℕ
unfolding crc16
key_slot key (negsuc n) = some 0
key_slot key (pos zero) = some 0
key_slot key (pos (suc n)) =
    let modulus = suc n % 2 ^ 16 in if modulus == 0 then none else some (crc16 key % modulus)
