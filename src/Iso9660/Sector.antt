-- ===== src/Iso9660/Sector.antt =====
-- `Iso::Sector` of src/server/iso9660/iso9660.cc.
pub mod Disc
pub mod Total
use genode_world.Prelude.{
  ℕ, zero, suc, ◌+◌, ◌-◌, ◌*◌, ◌/◌, ◌%◌, ◌^◌, ◌==◌, ltb, if◌then◌else◌, List, Option, none, some,
}
use genode_world.Iso9660.Run.{Run, done, throw, io_error}

abbrev pub block_size : ℕ
block_size = 2048

abbrev pub max_sectors : ℕ
max_sectors = 32

-- The number of halvings that leave 24 bits, the precision of a `float`, of a number of 64 bits.
unfoldable pub excess_bits : ℕ → ℕ → ℕ
excess_bits zero n = zero
excess_bits (suc fuel) n =
    let rest = excess_bits fuel (n / 2) in if ltb n (2 ^ 24) then 0 else rest + 1

-- `n * (1 / 2 ^ s)` rounded to an integer, ties to even.
unfoldable pub round_even : ℕ → ℕ → ℕ
round_even n unit =
    if ltb (2 * (n % unit)) unit
    then n / unit
    else if ltb unit (2 * (n % unit))
    then n / unit + 1
    else n / unit + n / unit % 2

-- `n * ((float)blk_size() / (float)BLOCK_SIZE)`: the product with 1.0f rounds `n` to a `float`.
unfoldable pub through_float : ℕ → ℕ
through_float n = let unit = 2 ^ excess_bits 40 n in round_even n unit * unit

-- What a read packet yields for a first block and a number of blocks. `none` says that no packet
-- could be allocated or that it did not succeed.
abbrev pub Block : Type 0
Block = ℕ → ℕ → Option (List ℕ)

unfoldable pub content : Option (List ℕ) → Run (List ℕ)
content none = throw io_error
content (some bytes) = done bytes

-- `Sector (block, blk_nr, count)` and the packet content at `addr ()`.
unfoldable pub sector : Block → ℕ → ℕ → Run (List ℕ)
sector block blk_nr count = content (block (through_float blk_nr) (through_float count))

-- `to_blk`
unfoldable pub to_blk : ℕ → ℕ
to_blk bytes = (bytes + (block_size - 1)) % 2 ^ 64 / block_size * block_size / block_size
