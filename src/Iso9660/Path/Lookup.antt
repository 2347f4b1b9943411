-- ===== src/Iso9660/Path/Lookup.antt =====
-- `file_info` for a file in the root directory of a disc that the standards describe.
use genode_world.Prelude.{
  ℕ, zero, suc, ◌+◌, ◌-◌, ◌^◌, ◌≤◌, ◌<◌, ◌≡◌, refl, ap, ◌∙◌, List, [], ◌∷◌, none, some, take,
  length, arith, if-false,
}
use genode_world.Iso9660.Run.{Run, done, throw, beyond, unfinished, file_not_found, ◌>>=◌}
use genode_world.Iso9660.Sector.{Block, to_blk}
use genode_world.Iso9660.Sector.Disc.{to_blk_lem}
use genode_world.Iso9660.Record.{locate, data_length}
use genode_world.Iso9660.Record.Layout.{Entry, encode}
use genode_world.Iso9660.Record.Found.{
  lookup_entry, find_entry-none, blk_nr-entry, data_length-entry,
}
use genode_world.Iso9660.Path.{
  root_record, at_dir, Walk, search_level, max_blocks, walk, ident, result, file_info, Scanner,
  scanner_policy_file,
}
use genode_world.Iso9660.Path.Find.{
  DirSector, Without, IsFile, locate-Holds, file_walk, search_level-skip, search_level-finds,
}

abbrev start : Walk
start = record { packet = []; dir = root_record; blk_nr = 0; data_length = 0 }

bind_done : (m : Run Walk) → (m >>= λ w. done w) ≡ m
bind_done (done w) = refl
bind_done (throw x) = refl
bind_done beyond = refl
bind_done unfinished = refl

result-file :
    (packet : List ℕ) (pos : ℕ) (e : Entry)
    → IsFile e
    → result (file_walk packet pos e) ≡ done (record { blk_nr = e.extent; size = e.size })
unfolding result
result-file packet pos e file = if-false _ _ _ file.not_zero

-- The root record of a disc: it names the extent of the root directory.
pub record IsRootOf (root : List ℕ) (r : Entry) : Type 0 where
  pub behind : List ℕ
  pub laid_out : root ≡ encode r behind
  pub extent_fits : r.extent < 2 ^ 32
  pub size_fits : r.size < 2 ^ 32

module _ (scan : Scanner) (block : Block) (root path text : List ℕ) (r : Entry)
    (is_root : IsRootOf root r) (scanned : scan scanner_policy_file path ≡ ident text ∷ []) where
  file_info-search :
      file_info scan block root path
      ≡ (search_level (suc max_blocks) block root (take 127 text) r.extent 0 start >>= result)
  unfolding file_info walk
  file_info-search =
      let nr = blk_nr-entry root 0 r is_root.behind is_root.laid_out is_root.extent_fits in
      rw (scanned, nr)
        (ap (λ m. m >>= result)
          (bind_done (search_level (suc max_blocks) block root (take 127 text) r.extent 0 start)))

  -- On a disc whose root directory is laid out by the standards in sectors of records with zeros
  -- behind them: if the sectors of the directory before the `j`-th do not have the first 127
  -- characters of the path's only name, and the `j`-th has, with an entry that is a file and does
  -- not stand at block 0 with size 0, then `file_info` gives the position and the size of this
  -- entry.
  pub file_info_finds :
      (j : ℕ) (e d : Entry) (es : List Entry)
      → ((n : ℕ) → n < j → Without block (take 127 text) (r.extent + n))
      → DirSector block (r.extent + j) d es
      → lookup_entry (take 127 text) (d ∷ es) ≡ some e
      → IsFile e
      → j < to_blk r.size
      → file_info scan block root path ≡ done (record { blk_nr = e.extent; size = e.size })
  file_info_finds j e d es before here found file inside =
      let size = data_length-entry root 0 r is_root.behind is_root.laid_out is_root.size_fits in
      let bound : to_blk r.size ≤ max_blocks =
        let small = is_root.size_fits in omega (arith, to_blk_lem r.size (omega arith)) in
      let f =
        search_level-finds block root (take 127 text) r.extent r.size j size is_root.size_fits
          before e d es here file found inside j (suc max_blocks) 0 start (omega arith)
          (omega arith) refl in
      file_info-search ∙ ap (λ m. m >>= result) f.1 ∙ result-file here.packet f.0 e file

  -- The last sector of the directory does not have the name either.
  search_level-last :
      (fuel i : ℕ) (w : Walk)
      → Without block (take 127 text) (r.extent + i)
      → w.dir ≡ root_record
      → suc i ≡ to_blk r.size
      → search_level (suc fuel) block root (take 127 text) r.extent i w ≡ throw file_not_found
  unfolding search_level
  search_level-last fuel i w b dir e =
      let size = data_length-entry root 0 r is_root.behind is_root.laid_out is_root.size_fits in
      let packet : List ℕ = b.there.packet in
      let level : List ℕ = take 127 text in
      let len_at : at_dir data_length root w.packet w.dir ≡ done r.size =
        ap (at_dir data_length root w.packet) dir ∙ size in
      let len_in : at_dir data_length root packet w.dir ≡ done r.size =
        ap (at_dir data_length root packet) dir ∙ size in
      let miss : locate (suc (length packet)) packet 0 level ≡ done none =
        locate-Holds packet level b.first b.others b.there.holds
        ∙ ap done (find_entry-none level 0 (b.first ∷ b.others) b.absent) in
      let bound : to_blk r.size ≤ 2 ^ 21 =
        let small = is_root.size_fits in omega (arith, to_blk_lem r.size (omega arith)) in
      ground (arith, len_at, b.there.reads, miss, len_in)

  search_level-fails :
      (left fuel i : ℕ) (w : Walk)
      → ((n : ℕ) → n < to_blk r.size → Without block (take 127 text) (r.extent + n))
      → suc (i + left) ≡ to_blk r.size
      → left < fuel
      → w.dir ≡ root_record
      → search_level fuel block root (take 127 text) r.extent i w ≡ throw file_not_found
  search_level-fails left zero i w all at h dir = absurd (omega arith)
  search_level-fails zero (suc fuel) i w all at h dir =
      search_level-last fuel i w (all i (omega arith)) dir (omega arith)
  search_level-fails (suc left) (suc fuel) i w all at h dir =
      let size = data_length-entry root 0 r is_root.behind is_root.laid_out is_root.size_fits in
      let b = all i (omega arith) in
      search_level-skip block root (take 127 text) r.extent r.size size is_root.size_fits fuel i
        b.first b.others w (r.extent + i) b.there refl dir b.absent (omega arith)
      ∙ search_level-fails left fuel (i + 1) (record w { packet = b.there.packet }) all
          (omega arith) (omega arith) dir

  -- On a disc whose root directory is laid out by the standards in sectors of records with zeros
  -- behind them, and has at least one byte: if no sector of the directory has the first 127
  -- characters of the path's only name, `file_info` throws `File_not_found`.
  pub file_info_absent :
      ((n : ℕ) → n < to_blk r.size → Without block (take 127 text) (r.extent + n))
      → 0 < r.size
      → file_info scan block root path ≡ throw file_not_found
  file_info_absent all some_bytes =
      let small = is_root.size_fits in
      let blocks = to_blk_lem r.size (omega arith) in
      file_info-search
      ∙ ap (λ m. m >>= result)
          (search_level-fails (to_blk r.size - 1) (suc max_blocks) 0 start all (omega arith)
            (omega arith) refl)
