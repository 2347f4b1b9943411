-- ===== src/Iso9660/Read.antt =====
-- `Iso::read_file` of src/server/iso9660/iso9660.cc.
pub mod Blocks
pub mod Total
use genode_world.Prelude.{
  ℕ, zero, suc, ◌+◌, ◌-◌, ◌*◌, ◌/◌, ◌%◌, ◌^◌, ◌==◌, leb, if◌then◌else◌, ◌&&◌, Bool, true, false,
  List, [], ◌∷◌, min, length, overwrite, replicate, add_size, sub_size, u32,
}
use genode_world.Iso9660.Run.{Run, done, beyond, unfinished, ◌>>=◌, slice}
use genode_world.Iso9660.Sector.{Block, sector, block_size, max_sectors, to_blk}
use genode_world.Iso9660.Path.{FileInfo}

-- `memcpy` and `memset` to the buffer.
unfoldable pub store : List ℕ → ℕ → List ℕ → Run (List ℕ)
store mem pos bytes =
    if leb (pos + length bytes) (length mem) then done (overwrite mem pos bytes) else beyond

-- The rest of the page behind an odd number of blocks is zeroed.
unfoldable pub zero_rest : ℕ → ℕ → ℕ → List ℕ → Run (List ℕ)
zero_rest left count pos mem =
    if left == 0 && count % 2 == 1 then store mem pos (replicate block_size 0) else done mem

-- The loop of `read_file`: `total` blocks are left, from `blk_nr` on, to the position `pos`.
unfoldable pub read_blocks : ℕ → Block → ℕ → ℕ → ℕ → List ℕ → Run (List ℕ)
read_blocks zero block total blk_nr pos mem = unfinished
read_blocks (suc fuel) block total blk_nr pos mem =
    let count = min max_sectors total in
    elim (count == 0) [
      | true ↦ done mem
      | false ↦ sector block blk_nr count >>= λ bytes.
          slice bytes 0 (count * block_size) >>= λ copied. store mem pos copied >>= λ mem'.
          zero_rest (total - count) count (pos + count * block_size) mem' >>= λ mem''.
          read_blocks fuel block (total - count) (blk_nr + count) (pos + count * block_size) mem''
    ]

-- The length that is read, which is a `uint32_t`.
unfoldable pub read_length : FileInfo → ℕ → ℕ → ℕ
read_length info offset len =
    if leb info.size (add_size len offset)
    then u32 (sub_size (sub_size info.size offset) 1)
    else len

-- The bytes that are reported as read, and the buffer.
unfoldable pub read_file : Block → FileInfo → ℕ → ℕ → List ℕ → Run (ℕ × List ℕ)
read_file block info offset len buf =
    let total = to_blk (read_length info offset len) in
    read_blocks (suc total) block total (add_size info.blk_nr (offset / block_size)) 0 buf
    >>= λ mem. done (total * block_size, mem)
