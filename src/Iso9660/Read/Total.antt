-- ===== src/Iso9660/Read/Total.antt =====
-- The loop of `read_file` ends, whatever the block session answers.
use genode_world.Prelude.{
  ℕ, zero, suc, ◌+◌, ◌-◌, ◌*◌, ◌<◌, ◌≡◌, ◌≢◌, ◌==◌, min, false, List, replicate, add_size, ◌/◌,
  arith,
}
use genode_world.Iso9660.Run.{Run, done, unfinished, ◌>>=◌, slice, bind_ends}
use genode_world.Iso9660.Sector.{Block, sector, block_size, to_blk}
use genode_world.Iso9660.Sector.Total.{sector_ends}
use genode_world.Iso9660.Path.{FileInfo}
use genode_world.Iso9660.Read.{store, zero_rest, read_blocks, read_file, read_length}

slice_ends : (mem : List ℕ) (at n : ℕ) → slice mem at n ≢ unfinished
unfolding slice
slice_ends mem at n = ground arith

store_ends : (mem : List ℕ) (pos : ℕ) (bytes : List ℕ) → store mem pos bytes ≢ unfinished
unfolding store
store_ends mem pos bytes = ground arith

zero_rest_ends : (left count pos : ℕ) (mem : List ℕ) → zero_rest left count pos mem ≢ unfinished
unfolding zero_rest
zero_rest_ends left count pos mem = ground (arith, store_ends mem pos (replicate block_size 0))

abbrev rest_of : ℕ → Block → ℕ → ℕ → ℕ → ℕ → List ℕ → Run (List ℕ)
rest_of fuel block total nr pos count mem =
    read_blocks fuel block (total - count) (nr + count) (pos + count * block_size) mem

abbrev zero_on : ℕ → Block → ℕ → ℕ → ℕ → ℕ → List ℕ → Run (List ℕ)
zero_on fuel block total nr pos count mem =
    zero_rest (total - count) count (pos + count * block_size) mem >>= λ mem''.
    rest_of fuel block total nr pos count mem''

abbrev store_on : ℕ → Block → ℕ → ℕ → ℕ → ℕ → List ℕ → List ℕ → Run (List ℕ)
store_on fuel block total nr pos count mem copied =
    store mem pos copied >>= λ mem'. zero_on fuel block total nr pos count mem'

abbrev slice_on : ℕ → Block → ℕ → ℕ → ℕ → ℕ → List ℕ → List ℕ → Run (List ℕ)
slice_on fuel block total nr pos count mem bytes = slice bytes 0 (count * block_size) >>= λ copied.
    store_on fuel block total nr pos count mem copied

pub read_blocks_ends :
    (fuel : ℕ) (block : Block) (total nr pos : ℕ) (mem : List ℕ)
    → total < fuel
    → read_blocks fuel block total nr pos mem ≢ unfinished
unfolding read_blocks
read_blocks_ends zero block total nr pos mem h = absurd (omega arith)
read_blocks_ends (suc fuel) block zero nr pos mem h = λ e. cc
read_blocks_ends (suc fuel) block (suc t) nr pos mem h =
    let total : ℕ = suc t in
    let count : ℕ = min 32 total in
    let next = λ (mem'' : List ℕ).
      read_blocks_ends fuel block (total - count) (nr + count) (pos + count * block_size) mem''
        (omega arith) in
    let round : (sector block nr count >>= λ bytes.
    slice_on fuel block total nr pos count mem bytes)
        ≢ unfinished =
      bind_ends (sector block nr count) (λ bytes. slice_on fuel block total nr pos count mem bytes)
        (sector_ends block nr count)
        (λ bytes _.
          bind_ends (slice bytes 0 (count * block_size))
            (λ copied. store_on fuel block total nr pos count mem copied)
            (slice_ends bytes 0 (count * block_size))
            (λ copied _.
              bind_ends (store mem pos copied) (λ mem'. zero_on fuel block total nr pos count mem')
                (store_ends mem pos copied)
                (λ mem' _.
                  bind_ends (zero_rest (total - count) count (pos + count * block_size) mem')
                    (λ mem''. rest_of fuel block total nr pos count mem'')
                    (zero_rest_ends (total - count) count (pos + count * block_size) mem')
                    (λ mem'' _. next mem'')))) in
    let some_left : (min 32 (suc t) == 0) ≡ false = ground arith in
    rw (some_left, read_blocks) round

abbrev with_total : ℕ → List ℕ → Run (ℕ × List ℕ)
with_total n mem = done (n, mem)

pub read_file_ends :
    (block : Block) (info : FileInfo) (offset len : ℕ) (buf : List ℕ)
    → read_file block info offset len buf ≢ unfinished
unfolding read_file
read_file_ends block info offset len buf =
    let total : ℕ = to_blk (read_length info offset len) in
    let first : ℕ = add_size info.blk_nr (offset / block_size) in
    bind_ends (read_blocks (suc total) block total first 0 buf) (with_total (total * block_size))
      (read_blocks_ends (suc total) block total first 0 buf (omega arith)) (λ mem _ e. cc)
