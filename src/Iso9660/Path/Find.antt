-- ===== src/Iso9660/Path/Find.antt =====
-- `file_info` on a root directory as the standards lay it out.
use genode_world.Prelude.{
  ℕ, zero, suc, ◌+◌, ◌/◌, ◌%◌, ◌^◌, ◌≤◌, ◌<◌, ◌≡◌, refl, ap, ◌∙◌, ◌==◌, ◌&&◌, false, List, [], ◌∷◌,
  none, some, drop, length, length-append, arith,
}
use genode_world.Iso9660.Run.{Run, done}
use genode_world.Iso9660.Sector.{Block, sector, to_blk}
use genode_world.Iso9660.Sector.Disc.{to_blk_lem}
use genode_world.Iso9660.Record.{locate, data_length}
use genode_world.Iso9660.Record.Layout.{
  Entry, encode, encode_all, AllFit, find_entry, encode_fields, padding, Field,
}
use genode_world.Iso9660.Record.Locate.{locate-encode_all}
use genode_world.Iso9660.Record.Found.{
  lookup_entry, find_entry-at, find_entry-none, blk_nr-entry, data_length-entry, directory-entry,
}
use genode_world.Iso9660.Path.{root_record, in_packet, at_dir, Walk, enter, search_level}

-- A sector of a directory: the records, and zeros behind them.
pub record Holds (packet : List ℕ) (e : Entry) (es : List Entry) : Type 0 where
  pub rest : List ℕ
  pub laid_out : packet ≡ encode_all (e ∷ es) (0 ∷ rest)
  pub fit : AllFit (e ∷ es)
  pub zeros : 2 ≤ length rest

length-le-encode_fields :
    (fs : List Field) (rest : List ℕ) → length rest ≤ length (encode_fields fs rest)
length-le-encode_fields [] rest = omega arith
length-le-encode_fields (f ∷ fs) rest =
    omega (arith, length-append f.payload (encode_fields fs rest), length-le-encode_fields fs rest)

length-le-padding : (n : ℕ) (rest : List ℕ) → length rest ≤ length (padding n rest)
length-le-padding n rest = ground arith

length-le-encode_all : (es : List Entry) (rest : List ℕ) → length es ≤ length (encode_all es rest)
length-le-encode_all [] rest = omega arith
length-le-encode_all (e ∷ es) rest = omega (
  arith,
  length-append e.name (padding (length e.name) (encode_fields e.fields (encode_all es rest))),
  length-le-padding (length e.name) (encode_fields e.fields (encode_all es rest)),
  length-le-encode_fields e.fields (encode_all es rest),
  length-le-encode_all es rest,
)

pub locate-Holds :
    (packet level : List ℕ) (e : Entry) (es : List Entry)
    → Holds packet e es
    → locate (suc (length packet)) packet 0 level ≡ done (find_entry level 0 (e ∷ es))
locate-Holds packet level e es h =
    locate-encode_all (suc (length packet)) packet 0 level e es h.rest h.laid_out h.fit h.zeros
      (omega (arith, ap length h.laid_out, length-le-encode_all (e ∷ es) (0 ∷ h.rest)))

-- The sector `nr` of the disc is a sector of a directory.
pub record DirSector (block : Block) (nr : ℕ) (e : Entry) (es : List Entry) : Type 0 where
  pub packet : List ℕ
  pub reads : sector block nr 1 ≡ done packet
  pub holds : Holds packet e es

module _ (block : Block) (root level : List ℕ) (current len : ℕ)
    (size : data_length root 0 ≡ done len) (small : len < 2 ^ 32) where
  -- A sector without the name, which is not the last one.
  pub search_level-skip :
      (fuel i : ℕ) (e : Entry) (es : List Entry) (w : Walk) (nr : ℕ) (s : DirSector block nr e es)
      → current + i ≡ nr
      → w.dir ≡ root_record
      → lookup_entry level (e ∷ es) ≡ none
      → suc i < to_blk len
      → search_level (suc fuel) block root level current i w
        ≡ search_level fuel block root level current (i + 1) (record w { packet = s.packet })
  unfolding search_level
  search_level-skip fuel i e es w nr s at d none_here h =
      let reads : sector block (current + i) 1 ≡ done s.packet =
        ap (λ n. sector block n 1) at ∙ s.reads in
      let len_at : at_dir data_length root w.packet w.dir ≡ done len =
        ap (at_dir data_length root w.packet) d ∙ size in
      let len_in : at_dir data_length root s.packet w.dir ≡ done len =
        ap (at_dir data_length root s.packet) d ∙ size in
      let miss : locate (suc (length s.packet)) s.packet 0 level ≡ done none =
        locate-Holds s.packet level e es s.holds
        ∙ ap done (find_entry-none level 0 (e ∷ es) none_here) in
      let bound : to_blk len ≤ 2 ^ 21 = omega (arith, to_blk_lem len (omega arith)) in
      ground (arith, len_at, reads, miss, len_in)

  search_level-hit :
      (fuel i pos : ℕ) (e : Entry) (es : List Entry) (w : Walk) (nr : ℕ)
      (s : DirSector block nr e es)
      → current + i ≡ nr
      → w.dir ≡ root_record
      → find_entry level 0 (e ∷ es) ≡ some pos
      → i < to_blk len
      → search_level (suc fuel) block root level current i w ≡ enter s.packet pos w
  unfolding search_level
  search_level-hit fuel i pos e es w nr s at d here h =
      let reads : sector block (current + i) 1 ≡ done s.packet =
        ap (λ n. sector block n 1) at ∙ s.reads in
      let len_at : at_dir data_length root w.packet w.dir ≡ done len =
        ap (at_dir data_length root w.packet) d ∙ size in
      let found : locate (suc (length s.packet)) s.packet 0 level ≡ done (some pos) =
        locate-Holds s.packet level e es s.holds ∙ ap done here in
      ground (arith, len_at, reads, found)

-- A file: the directory flag is not set, and not all of position and size is zero.
pub record IsFile (e : Entry) : Type 0 where
  pub no_directory : (e.flags / 2 % 2 == 1) ≡ false
  pub extent_fits : e.extent < 2 ^ 32
  pub size_fits : e.size < 2 ^ 32
  pub not_zero : (e.extent == 0 && e.size == 0) ≡ false

abbrev pub file_walk : List ℕ → ℕ → Entry → Walk
file_walk packet pos e = record {
  packet = packet;
  dir = in_packet pos;
  blk_nr = e.extent;
  data_length = e.size;
}

enter-file :
    (packet : List ℕ) (pos : ℕ) (w : Walk) (e : Entry) (behind : List ℕ)
    → drop pos packet ≡ encode e behind
    → IsFile e
    → enter packet pos w ≡ done (file_walk packet pos e)
unfolding enter
enter-file packet pos w e behind at file =
    let nr = blk_nr-entry packet pos e behind at file.extent_fits in
    let is_dir = directory-entry packet pos e behind at in
    let len = data_length-entry packet pos e behind at file.size_fits in
    ground (arith, nr, is_dir, len, file.no_directory)

-- A sector of a directory without the name.
pub record Without (block : Block) (level : List ℕ) (nr : ℕ) : Type 0 where
  pub first : Entry
  pub others : List Entry
  pub there : DirSector block nr first others
  pub absent : lookup_entry level (first ∷ others) ≡ none

module _ (block : Block) (root level : List ℕ) (current len j : ℕ)
    (size : data_length root 0 ≡ done len) (small : len < 2 ^ 32)
    (before : (n : ℕ) → n < j → Without block level (current + n)) (e d : Entry) (es : List Entry)
    (here : DirSector block (current + j) d es) (file : IsFile e)
    (found : lookup_entry level (d ∷ es) ≡ some e) (inside : j < to_blk len) where
  abbrev pub Found : Run Walk → Type 0
  Found r = (pos : ℕ) × (r ≡ done (file_walk here.packet pos e))

  pub search_level-finds :
      (left fuel i : ℕ) (w : Walk)
      → i + left ≡ j
      → left < fuel
      → w.dir ≡ root_record
      → Found (search_level fuel block root level current i w)
  search_level-finds left zero i w at h dir = absurd (omega arith)
  search_level-finds zero (suc fuel) i w at h dir =
      let holds = here.holds in
      let f =
        find_entry-at here.packet level 0 (d ∷ es) holds.rest e holds.laid_out holds.fit holds.zeros
          found in
      (
        f.0,
        search_level-hit block root level current len size small fuel i f.0 d es w (current + j)
              here (omega arith) dir f.2 (omega arith)
            ∙ enter-file here.packet f.0 w e f.1 f.3 file,
      )
  search_level-finds (suc left) (suc fuel) i w at h dir =
      let b = before i (omega arith) in
      let rest =
        search_level-finds left fuel (i + 1) (record w { packet = b.there.packet }) (omega arith)
          (omega arith) dir in
      (
        rest.0,
        search_level-skip block root level current len size small fuel i b.first b.others w
              (current + i) b.there refl dir b.absent (omega arith)
            ∙ rest.1,
      )
