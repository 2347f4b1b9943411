-- ===== src/RemoteRom/Cksum.antt =====
-- `cksum` of include/remote_rom/util.h: a bitwise CRC-32.
use Prim.Native.Nat.{bit_xor}
use genode_world.Prelude.{ℕ, zero, suc, ◌/◌, ◌%◌, ◌≡◌, refl, List, [], ◌∷◌, if◌then◌else◌, ◌==◌}

-- One round of the inner loop: `-int32_t(crc & 1)` has all bits set exactly if `crc` is odd.
pub crc_round : ℕ → ℕ
crc_round crc = bit_xor (if crc % 2 == 1 then 0xedb88320 else 0) (crc / 2)

pub crc_rounds : ℕ → ℕ → ℕ
crc_rounds zero crc = crc
crc_rounds (suc j) crc = crc_rounds j (crc_round crc)

pub crc_bytes : ℕ → List ℕ → ℕ
crc_bytes crc [] = crc
crc_bytes crc (b ∷ bs) = crc_bytes (crc_rounds 8 (bit_xor crc b)) bs

unfoldable pub cksum : List ℕ → ℕ
unfolding crc_bytes crc_rounds crc_round
cksum bytes = bit_xor (crc_bytes 0xffffffff bytes) 0xffffffff

-- The check value of CRC-32, of the text 123456789.
cksum_check : cksum (0x31 ∷ 0x32 ∷ 0x33 ∷ 0x34 ∷ 0x35 ∷ 0x36 ∷ 0x37 ∷ 0x38 ∷ 0x39 ∷ []) ≡ 0xcbf43926
unfolding cksum
cksum_check = refl
