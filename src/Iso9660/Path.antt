-- ===== src/Iso9660/Path.antt =====
-- `Volume_descriptor` and `Iso::file_info` of src/server/iso9660/iso9660.cc.
pub mod Total
pub mod Ends
pub mod Find
pub mod Lookup
pub mod Overrun
use genode_world.Prelude.{
  ℕ, zero, suc, ◌+◌, ◌-◌, ◌==◌, ltb, if◌then◌else◌, ◌&&◌, not, Bool, true, false, List, [], ◌∷◌,
  Option, none, some, take, length, sub_size,
}
use genode_world.Iso9660.Run.{
  Run, done, throw, unfinished, ◌>>=◌, byte, slice, file_not_found, non_data_disc,
}
use genode_world.Iso9660.Sector.{Block, sector, to_blk}
use genode_world.Iso9660.Record.{locate, blk_nr, data_length, directory}

abbrev pub root_size : ℕ
root_size = 34

-- `locate_root`, from a block on; the copy of the root record, or none if there is no primary
-- descriptor.
unfoldable pub locate_root : ℕ → Block → ℕ → Run (Option (List ℕ))
locate_root zero block nr = unfinished
locate_root (suc fuel) block nr = do
  sec ← sector block nr 1
  kind ← byte sec 0
  elim (kind == 0x01) [
    | true ↦ slice sec 156 root_size >>= λ record_bytes. done (some record_bytes)
    | false ↦ elim (kind == 0xff) [ true ↦ done none | false ↦ locate_root fuel block (nr + 1) ]
  ]

abbrev pub or_throw : Option (List ℕ) → Run (List ℕ)
or_throw none = throw non_data_disc
or_throw (some root) = done root

unfoldable pub root_dir : ℕ → Block → Run (List ℕ)
root_dir fuel block = locate_root fuel block 16 >>= or_throw

-- `_root_dir`: the root record is located once.
unfoldable pub cached_root : ℕ → Block → Option (List ℕ) → Run (List ℕ)
cached_root fuel block none = root_dir fuel block
cached_root fuel block (some root) = done root

-- The tokens of a path, which Genode's scanner makes under the policy of the source.
pub data Token : Type 0 where
  ident : List ℕ → Token
  separator : Token

pub record Policy : Type 0 where
  pub identifier_char : ℕ → Bool
  pub end_of_quote : ℕ → ℕ → Bool

abbrev pub scanner_policy_file : Policy
scanner_policy_file = record {
  identifier_char = λ c. not (c == b'/') && not (c == 0);
  end_of_quote = λ c d. not (c == b'\\') && d == b'"';
}

-- `dir`: a pointer to the copy of the root record, or into the packet that was read last. The packet
-- of a sector is released before the next one is allocated, which takes its place.
pub data Dir : Type 0 where
  root_record : Dir
  in_packet : ℕ → Dir

pub record Walk : Type 0 where
  pub packet : List ℕ
  pub dir : Dir
  pub blk_nr : ℕ
  pub data_length : ℕ

abbrev pub at_dir {ℓ} : {A : Type ℓ} → (List ℕ → ℕ → Run A) → List ℕ → List ℕ → Dir → Run A
at_dir field root packet root_record = field root 0
at_dir field root packet (in_packet pos) = field packet pos

abbrev pub path_length : ℕ
path_length = 128

-- The record at `pos` of the packet becomes `dir`, and a file the result.
abbrev pub entered : List ℕ → ℕ → Walk → ℕ → Bool → ℕ → Walk
entered packet pos w nr is_dir len =
    if is_dir
    then record w { packet = packet; dir = in_packet pos }
    else record { packet = packet; dir = in_packet pos; blk_nr = nr; data_length = len }

unfoldable pub enter : List ℕ → ℕ → Walk → Run Walk
enter packet pos w = do
  nr ← blk_nr packet pos
  is_dir ← directory packet pos
  len ← data_length packet pos
  done (entered packet pos w nr is_dir len)

-- The loop over the sectors of a directory, from the sector `i` on; `current` is the first block.
unfoldable pub search_level : ℕ → Block → List ℕ → List ℕ → ℕ → ℕ → Walk → Run Walk
search_level zero block root level current i w = unfinished
search_level (suc fuel) block root level current i w =
    at_dir data_length root w.packet w.dir >>= λ len. elim (ltb i (to_blk len)) [
      | false ↦ done w
      | true ↦ sector block (current + i) 1 >>= λ packet.
          locate (suc (length packet)) packet 0 level >>= λ tmp. elim tmp [
            | some pos ↦ enter packet pos w
            | none ↦ at_dir data_length root packet w.dir >>= λ len'.
                elim (i == sub_size (to_blk len') 1) [
                  | true ↦ throw file_not_found
                  | false ↦
                      search_level fuel block root level current (i + 1)
                        (record w { packet = packet })
                ]
          ]
    ]

-- A directory has at most 2^32 - 1 bytes.
abbrev pub max_blocks : ℕ
max_blocks = 2097152

unfoldable pub walk : Block → List ℕ → List Token → Walk → Run Walk
walk block root [] w = done w
walk block root (separator ∷ ts) w = walk block root ts w
walk block root (ident text ∷ ts) w = do
  current ← at_dir blk_nr root w.packet w.dir
  w' ← search_level (suc max_blocks) block root (take 127 text) current 0 w
  walk block root ts w'

pub record FileInfo : Type 0 where
  pub blk_nr : ℕ
  pub size : ℕ

unfoldable pub result : Walk → Run FileInfo
result w =
    if w.blk_nr == 0 && w.data_length == 0
    then throw file_not_found
    else done (record { blk_nr = w.blk_nr; size = w.data_length })

abbrev pub Scanner : Type 0
Scanner = Policy → List ℕ → List Token

-- `Iso::file_info`, with the root record at hand
unfoldable pub file_info : Scanner → Block → List ℕ → List ℕ → Run FileInfo
file_info scan block root path =
    walk block root (scan scanner_policy_file path)
      (record { packet = []; dir = root_record; blk_nr = 0; data_length = 0 })
    >>= result
