-- ===== src/Iso9660/Path/Overrun.antt =====
-- A directory below the root: its record stands in the packet that the search overwrites.
use genode_world.Prelude.{ℕ, suc, ◌+◌, ◌^◌, ◌≤◌, ◌<◌, ◌≡◌, ap, ◌∙◌, List, none, some, length, arith}
use genode_world.Iso9660.Run.{done}
use genode_world.Iso9660.Sector.{Block, sector, to_blk}
use genode_world.Iso9660.Sector.Disc.{to_blk_lem}
use genode_world.Iso9660.Record.{locate, data_length}
use genode_world.Iso9660.Path.{in_packet, at_dir, Walk, enter, search_level}

module _ (block : Block) (root level packet behind : List ℕ) (current at pos len len' : ℕ)
    (w : Walk) (dir : w.dir ≡ in_packet at) (size : data_length w.packet at ≡ done len)
    (one_block : to_blk len ≡ 1) (reads : sector block current 1 ≡ done packet)
    (missing : locate (suc (length packet)) packet 0 level ≡ done none)
    (other_size : data_length packet at ≡ done len') (more_blocks : 1 < to_blk len')
    (small : len' < 2 ^ 32) (reads_behind : sector block (current + 1) 1 ≡ done behind)
    (there : locate (suc (length behind)) behind 0 level ≡ done (some pos)) where
  first_round :
      (fuel : ℕ)
      → search_level (suc fuel) block root level current 0 w
        ≡ search_level fuel block root level current 1 (record w { packet = packet })
  unfolding search_level
  first_round fuel =
      let len_at : at_dir data_length root w.packet w.dir ≡ done len =
        ap (at_dir data_length root w.packet) dir ∙ size in
      let len_in : at_dir data_length root packet w.dir ≡ done len' =
        ap (at_dir data_length root packet) dir ∙ other_size in
      let first : sector block (current + 0) 1 ≡ done packet =
        let here : current + 0 ≡ current = omega arith in ap (λ n. sector block n 1) here ∙ reads in
      let bound : to_blk len' ≤ 2 ^ 21 = omega (arith, to_blk_lem len' (omega arith)) in
      ground (arith, len_at, first, missing, len_in)

  second_round :
      (fuel : ℕ)
      → search_level (suc fuel) block root level current 1 (record w { packet = packet })
        ≡ enter behind pos (record w { packet = packet })
  unfolding search_level
  second_round fuel =
      let len_in : at_dir data_length root packet w.dir ≡ done len' =
        ap (at_dir data_length root packet) dir ∙ other_size in
      ground (arith, len_in, reads_behind, there)

  -- If a directory of one block below the root does not have the name that is looked for, and the
  -- bytes of this block in the place of the directory's own record show a length of several
  -- blocks, the search goes on in the block behind the directory, and takes what it finds there.
  pub search_level_overruns :
      (fuel : ℕ)
      → search_level (suc (suc fuel)) block root level current 0 w
        ≡ enter behind pos (record w { packet = packet })
  search_level_overruns fuel = first_round (suc fuel) ∙ second_round fuel
