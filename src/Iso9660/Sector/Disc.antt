-- ===== src/Iso9660/Sector/Disc.antt =====
-- A block session to a disc with a given content.
use genode_world.Prelude.{
  ℕ, suc, ◌+◌, ◌*◌, ◌/◌, ◌^◌, ◌≤◌, ◌<◌, ◌≡◌, ap, ◌∙◌, List, some, take, drop, length, length-take,
  length-drop, arith, if-true, lt→ltb,
}
use genode_world.Iso9660.Run.{done}
use genode_world.Iso9660.Sector.{
  Block, sector, content, through_float, excess_bits, round_even, block_size, to_blk,
}

-- A read packet for blocks of the disc succeeds, with the bytes of these blocks.
pub record IsDisc (block : Block) (image : List ℕ) : Type 0 where
  pub reads :
      (nr count : ℕ)
      → (nr + count) * block_size ≤ length image
      → block nr count ≡ some (take (count * block_size) (drop (nr * block_size) image))

abbrev pub blocks : List ℕ → ℕ → ℕ → List ℕ
blocks image nr count = take (count * block_size) (drop (nr * block_size) image)

pub length-blocks :
    (image : List ℕ) (nr count : ℕ)
    → (nr + count) * block_size ≤ length image
    → length (blocks image nr count) ≡ count * block_size
length-blocks image nr count h =
    length-take (count * block_size) (drop (nr * block_size) image)
    ∙ omega (arith, length-drop (nr * block_size) image)

-- A `float` has 24 bits of precision.
excess_bits-zero : (fuel n : ℕ) → n < 2 ^ 24 → excess_bits (suc fuel) n ≡ 0
unfolding excess_bits
excess_bits-zero fuel n h = if-true _ _ _ (lt→ltb n (2 ^ 24) h)

round_even_one : (n : ℕ) → round_even n 1 * 1 ≡ n
unfolding round_even
round_even_one n = ground arith

pub through_float_exact : (n : ℕ) → n < 2 ^ 24 → through_float n ≡ n
unfolding through_float
through_float_exact n h =
    ap (λ s. round_even n (2 ^ s) * 2 ^ s) (excess_bits-zero 39 n h) ∙ round_even_one n

pub sector-blocks :
    (block : Block) (image : List ℕ) (nr count : ℕ)
    → IsDisc block image
    → nr < 2 ^ 24
    → count < 2 ^ 24
    → (nr + count) * block_size ≤ length image
    → sector block nr count ≡ done (blocks image nr count)
unfolding sector content
sector-blocks block image nr count disc h k fits =
    ground (arith, through_float_exact nr, through_float_exact count, disc.reads nr count fits)

-- `to_blk` rounds up, and never wraps for what a record can hold.
pub to_blk_lem : (n : ℕ) → n < 2 ^ 63 → to_blk n ≡ (n + 2047) / 2048
unfolding to_blk
to_blk_lem n h = omega arith
