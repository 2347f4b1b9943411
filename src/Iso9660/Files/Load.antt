-- ===== src/Iso9660/Files/Load.antt =====
-- The content of a file in its dataspace.
use genode_world.Prelude.{
  ℕ, suc, ◌+◌, ◌-◌, ◌*◌, ◌/◌, ◌%◌, ◌^◌, ◌≤◌, ◌<◌, ◌≡◌, ◌≢◌, refl, sym, ap, ◌∙◌, List, some,
  get_elem?, take, drop, replicate, length, length-replicate, take-take_le, get_elem?-replicate,
  add_size, u32, arith,
}
use genode_world.Iso9660.Run.{Run, done, throw, beyond, unfinished, ◌>>=◌}
use genode_world.Iso9660.Sector.{Block, block_size, to_blk}
use genode_world.Iso9660.Sector.Disc.{IsDisc, to_blk_lem}
use genode_world.Iso9660.Path.{FileInfo}
use genode_world.Iso9660.Read.{read_file, read_length, read_blocks}
use genode_world.Iso9660.Read.Blocks.{Copied, read_blocks-Copied}
use genode_world.Iso9660.Files.{load, page_sized, page_size}

-- Dataspaces are zeroed, and have the size that is asked for if that is a number of pages.
pub record IsRam (ram : ℕ → List ℕ) : Type 0 where
  pub zeroed : (n : ℕ) → n % page_size ≡ 0 → ram n ≡ replicate n 0

-- The bytes of a file on the disc.
abbrev pub file_bytes : List ℕ → FileInfo → List ℕ
file_bytes image info = take info.size (drop (info.blk_nr * block_size) image)

-- How many blocks are read.
abbrev pub read_count : FileInfo → ℕ
read_count info = (info.size + 2046) / 2048

-- A file of at least one byte and of less than 4 GiB, less one page, which lies on the disc, below
-- the block 2^24.
pub record OnDisc (image : List ℕ) (info : FileInfo) : Type 0 where
  pub some_bytes : 0 < info.size
  pub small : info.size ≤ 2 ^ 32 - 4096
  pub low : info.blk_nr + read_count info < 2 ^ 24
  pub inside : (info.blk_nr + read_count info) * block_size ≤ length image

page_sized_lem :
    (info : FileInfo)
    → info.size ≤ 2 ^ 32 - 4096
    → page_sized info ≡ (info.size + 4095) / 4096 * 4096
unfolding page_sized
page_sized_lem info h = omega arith

read_length_lem :
    (info : FileInfo)
    → 0 < info.size
    → info.size ≤ 2 ^ 32 - 4096
    → read_length info 0 (page_sized info) ≡ info.size - 1
unfolding read_length
read_length_lem info h k = ground (arith, page_sized_lem info k)

abbrev with_count : ℕ → List ℕ → Run (ℕ × List ℕ)
with_count n mem = done (n, mem)

second_of : (n : ℕ) (m : Run (List ℕ)) → (m >>= with_count n >>= λ p. done p.1) ≡ m
second_of n (done mem) = refl
second_of n (throw e) = refl
second_of n beyond = refl
second_of n unfinished = refl

module _ (block : Block) (ram : ℕ → List ℕ) (image : List ℕ) (info : FileInfo)
    (disc : IsDisc block image) (memory : IsRam ram) (on : OnDisc image info) where
  -- The loop that the constructor runs.
  load-run :
      load block ram info
      ≡ read_blocks
          (suc (read_count info))
          block
          (read_count info)
          info.blk_nr
          0
          (replicate (page_sized info) 0)
  unfolding load read_file
  load-run =
      let pages : page_sized info % page_size ≡ 0 =
        omega (arith, page_sized_lem info on.small, on.some_bytes, on.small) in
      let size : u32 (length (replicate {A = ℕ} (page_sized info) 0)) ≡ page_sized info =
        ap u32 (length-replicate {A = ℕ} (page_sized info) 0)
        ∙ omega (arith, page_sized_lem info on.small, on.small) in
      let total : to_blk (info.size - 1) ≡ read_count info =
        to_blk_lem (info.size - 1) (omega (arith, on.small)) ∙ omega (arith, on.some_bytes) in
      let first : add_size info.blk_nr (0 / block_size) ≡ info.blk_nr = omega (arith, on.low) in
      rw (memory.zeroed (page_sized info) pages) (
        rw size
          (rw (read_length_lem info on.some_bytes on.small) (rw total (rw first (second_of _ _)))))

  -- Opening the file ends, and gives a dataspace of whole pages with the blocks that were read.
  load-Copied :
      Copied block image disc
        (read_count info)
        info.blk_nr
        0
        (replicate (page_sized info) 0)
        (load block ram info)
  load-Copied =
      let read_ =
        read_blocks-Copied block image disc (suc (read_count info)) (read_count info) info.blk_nr 0
          (replicate (page_sized info) 0) (omega arith) on.low on.inside
          (omega (
            arith,
            length-replicate {A = ℕ} (page_sized info) 0,
            page_sized_lem info on.small,
            on.some_bytes,
          )) in
      (read_.0, load-run ∙ read_.1, read_.2, read_.3, read_.4)

  -- Opening a file of at least one byte that lies on the disc below the block 2^24, of at most
  -- 2^32 - 4096 bytes and with a size that is not one more than a number of blocks, ends with a
  -- dataspace of the size rounded up to pages, which starts with the bytes of the file, if the
  -- block session reads the disc and dataspaces are zeroed.
  pub load_content :
      info.size % 2048 ≢ 1
      → (mem : List ℕ) × (load block ram info ≡ done mem)
        × (length mem ≡ page_sized info)
        × (take info.size mem ≡ file_bytes image info)
  load_content whole =
      let c = load-Copied in
      let enough : info.size ≤ read_count info * block_size = omega (arith, on.some_bytes) in
      (
        c.0,
        c.1,
        c.2 ∙ length-replicate (page_sized info) 0,
        sym (take-take_le info.size (0 + read_count info * block_size) c.0 (omega arith))
            ∙ ap (take info.size) c.3
            ∙ take-take_le info.size (read_count info * block_size)
                (drop (info.blk_nr * block_size) image) enough,
      )

  -- If the size of such a file is one more than a number of blocks, the dataspace has all bytes of
  -- the file but the last one, in whose place stands zero.
  pub load_last_byte :
      info.size % 2048 ≡ 1
      → (mem : List ℕ) × (load block ram info ≡ done mem)
        × (take (info.size - 1) mem ≡ take (info.size - 1) (file_bytes image info))
        × (get_elem? mem (info.size - 1) ≡ some 0)
  load_last_byte odd =
      let c = load-Copied in
      let all : read_count info * block_size ≡ info.size - 1 = omega (arith, on.some_bytes) in
      let all_ : 0 + read_count info * block_size ≡ info.size - 1 = omega (arith, all) in
      let inside : info.size - 1 < page_sized info =
        omega (arith, page_sized_lem info on.small, on.some_bytes) in
      (
        c.0,
        c.1,
        ap (λ k. take k c.0) (sym all_)
            ∙ c.3
            ∙ sym (take-take_le (read_count info * block_size) info.size _ (omega arith))
            ∙ ap (λ k. take k (file_bytes image info)) all,
        c.4 (info.size - 1) (omega arith)
            (get_elem?-replicate (page_sized info) (info.size - 1) 0 inside),
      )
