-- ===== src/Iso9660/Read/Blocks.antt =====
-- The loop of `read_file` copies the blocks of the disc one behind the other.
use genode_world.Prelude.{
  ℕ, zero, suc, ◌+◌, ◌-◌, ◌*◌, ◌%◌, ◌^◌, ◌≤◌, ◌<◌, ◌≡◌, refl, sym, ap, ◌∙◌, ◌==◌, ◌&&◌, min, List,
  ◌++◌, append_assoc, append-nil, get_elem?, some, get_elem?-overwrite_behind,
  get_elem?-overwrite-replicate, length, take, drop, overwrite, replicate, length-overwrite,
  length-replicate, take-overwrite, take-overwrite_le, take-length_le, take-add, drop-drop, arith,
  inl, inr, Bool-cases, if-true, if-false,
}
use genode_world.Iso9660.Run.{Run, done, slice}
use genode_world.Iso9660.Sector.{Block, block_size}
use genode_world.Iso9660.Sector.Disc.{IsDisc, blocks, length-blocks, sector-blocks}
use genode_world.Iso9660.Read.{store, zero_rest, read_blocks}

store-overwrite :
    (mem : List ℕ) (pos : ℕ) (bytes : List ℕ)
    → pos + length bytes ≤ length mem
    → store mem pos bytes ≡ done (overwrite mem pos bytes)
unfolding store
store-overwrite mem pos bytes h = ground arith

slice_all : (bytes : List ℕ) (n : ℕ) → length bytes ≡ n → slice bytes 0 n ≡ done bytes
unfolding slice
slice_all bytes n e = ground (arith, take-length_le n bytes)

-- The zeros from a position on are still there.
abbrev pub ZerosStay : ℕ → List ℕ → List ℕ → Type 0
ZerosStay from mem mem' = (j : ℕ) → from ≤ j → get_elem? mem j ≡ some 0 → get_elem? mem' j ≡ some 0

-- The rest of the page is behind what was copied.
zero_rest-keeps :
    (left count pos : ℕ) (mem : List ℕ)
    → pos + (left + count) % 2 * block_size ≤ length mem
    → (mem' : List ℕ) × (zero_rest left count pos mem ≡ done mem')
      × (length mem' ≡ length mem)
      × (take pos mem' ≡ take pos mem)
      × ZerosStay 0 mem mem'
unfolding zero_rest
zero_rest-keeps left count pos mem h = elim (Bool-cases (left == 0 && count % 2 == 1)) [
  | inl y ↦
      let zeros : List ℕ = replicate block_size 0 in
      let odd : left + count ≡ count = ground arith in
      let odd' : count % 2 ≡ 1 = ground arith in
      let fits : pos + length zeros ≤ length mem =
        omega (arith, length-replicate {A = ℕ} block_size 0) in
      (
        overwrite mem pos zeros,
        if-true _ _ _ y ∙ store-overwrite mem pos zeros fits,
        length-overwrite mem pos zeros,
        take-overwrite_le pos mem pos zeros (omega arith),
        λ j h z. get_elem?-overwrite-replicate mem pos block_size 0 j z,
      )
  | inr n ↦ (mem, if-false _ _ _ n, refl, refl, λ j h z. z)
]

module _ (block : Block) (image : List ℕ) (disc : IsDisc block image) where
  -- What the loop leaves in the buffer.
  abbrev pub Copied : ℕ → ℕ → ℕ → List ℕ → Run (List ℕ) → Type 0
  Copied total nr pos mem r =
      (mem' : List ℕ) × (r ≡ done mem')
      × (length mem' ≡ length mem)
      × (take (pos + total * block_size) mem' ≡ take pos mem ++ blocks image nr total)
      × ZerosStay (pos + total * block_size) mem mem'

  -- One round: the next `count` blocks.
  read_blocks_round :
      (fuel total nr pos : ℕ) (mem : List ℕ) (count : ℕ)
      → count ≡ min 32 total
      → 0 < count
      → nr + total < 2 ^ 24
      → (nr + total) * block_size ≤ length image
      → pos + (total + total % 2) * block_size ≤ length mem
      → (mem' : List ℕ) × (read_blocks (suc fuel) block total nr pos mem
          ≡ read_blocks fuel block (total - count) (nr + count) (pos + count * block_size) mem')
        × (length mem' ≡ length mem)
        × (take (pos + count * block_size) mem' ≡ take pos mem ++ blocks image nr count)
        × ZerosStay (pos + count * block_size) mem mem'
  unfolding read_blocks
  read_blocks_round fuel total nr pos mem count e some_left small inside fits =
      let bytes : List ℕ = blocks image nr count in
      let size = length-blocks image nr count (omega arith) in
      let read_ =
        sector-blocks block image nr count disc (omega arith) (omega arith) (omega arith) in
      let copied = slice_all bytes (count * block_size) size in
      let stored = store-overwrite mem pos bytes (omega arith) in
      let mem1 : List ℕ = overwrite mem pos bytes in
      let zeroed =
        zero_rest-keeps (total - count) count (pos + count * block_size) mem1
          (omega (arith, length-overwrite mem pos bytes)) in
      let written : take (pos + count * block_size) mem1 ≡ take pos mem ++ bytes =
        take-overwrite mem pos bytes (omega arith) (omega arith) in
      (
        zeroed.0,
        ground (arith, read_, copied, stored, zeroed.1),
        zeroed.2 ∙ length-overwrite mem pos bytes,
        zeroed.3 ∙ written,
        λ j h z.
            zeroed.4 j (omega arith) (get_elem?-overwrite_behind mem pos bytes j (omega arith) ∙ z),
      )

  blocks-add :
      (nr count left : ℕ)
      → blocks image nr (count + left) ≡ blocks image nr count ++ blocks image (nr + count) left
  blocks-add nr count left =
      take-add (count * block_size) (left * block_size) (drop (nr * block_size) image) (omega arith)
      ∙ ap (λ t. blocks image nr count ++ take (left * block_size) t)
          (sym (drop-drop (nr * block_size) (count * block_size) image (omega arith)))

  -- With a round for each block the loop ends, and the buffer holds the blocks.
  pub read_blocks-Copied :
      (fuel total nr pos : ℕ) (mem : List ℕ)
      → total < fuel
      → nr + total < 2 ^ 24
      → (nr + total) * block_size ≤ length image
      → pos + (total + total % 2) * block_size ≤ length mem
      → Copied total nr pos mem (read_blocks fuel block total nr pos mem)
  read_blocks-Copied zero total nr pos mem h small inside fits = absurd (omega arith)
  read_blocks-Copied (suc fuel) zero nr pos mem h small inside fits = (
    mem,
    unfold read_blocks in refl,
    refl,
    (let e : pos + 0 ≡ pos = omega arith in
        ap (λ k. take k mem) e ∙ sym (append-nil (take pos mem))),
    λ j h z. z,
  )
  read_blocks-Copied (suc fuel) (suc t) nr pos mem h small inside fits =
      let total : ℕ = suc t in
      let count : ℕ = min 32 total in
      let left : ℕ = total - count in
      let whole : count + left ≡ total = omega arith in
      let round =
        read_blocks_round fuel total nr pos mem count refl (omega arith) small inside fits in
      let ih =
        read_blocks-Copied fuel left (nr + count) (pos + count * block_size) round.0 (omega arith)
          (omega arith) (omega arith) (omega (arith, round.2)) in
      (
        ih.0,
        round.1 ∙ ih.1,
        ih.2 ∙ round.2,
        ap (λ k. take k ih.0) (omega arith)
            ∙ ih.3
            ∙ ap (λ t. t ++ blocks image (nr + count) left) round.3
            ∙ append_assoc (take pos mem) (blocks image nr count) (blocks image (nr + count) left)
            ∙ ap (λ t. take pos mem ++ t) (sym (blocks-add nr count left))
            ∙ ap (λ t. take pos mem ++ blocks image nr t) whole,
        λ j h z. ih.4 j (omega arith) (round.4 j (omega arith) z),
      )
