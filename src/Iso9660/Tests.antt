-- ===== src/Iso9660/Tests.antt =====
-- The theorems about the ISO 9660 service at a small disc, and tests.
mod Discs
mod Overruns
mod Loads
use genode_world.Prelude.{
  ℕ, zero, suc, ◌+◌, ◌≡◌, ◌≢◌, refl, true, false, List, [], ◌∷◌, ◌++◌, Option, none, some, arith,
  replicate,
}
use genode_world.Iso9660.Sector.{through_float, excess_bits, round_even, sector, to_blk}
use genode_world.Iso9660.Tests.Discs.{
  block, env, empty_server, readme, file_content, root, descriptor, entries, dot, dot_dot, file,
  scan_path, ram, nm,
}
use genode_world.Prelude.{
  subst, if◌then◌else◌, take, drop, length, get_elem?, ◌*◌, ◌<◌, Bool, ltb, ◌&&◌, ap, Bool-cases,
  inl, inr, ◌==◌,
}
use genode_world.Iso9660.Run.{done, beyond, throw, file_not_found}
use genode_world.Iso9660.Record.Fields.{AllBytes}
use genode_world.Iso9660.Record.Layout.{Entry, Fits, find_entry}
use genode_world.Iso9660.Record.Locate.{locate-encode_all}
use genode_world.Iso9660.Path.Total.{YieldsBytes}
use genode_world.Iso9660.Path.Find.{Holds, DirSector, Without, IsFile}
use genode_world.Iso9660.Files.Sessions.{create_session_again}
use genode_world.Iso9660.Sector.{Block}
use genode_world.Iso9660.Record.Layout.{encode, encode_all}
use genode_world.Iso9660.Record.Found.{lookup_entry}
use genode_world.Iso9660.Record.LongName.{LongName, locate-LongName}
use genode_world.Iso9660.Path.Lookup.{IsRootOf, file_info_finds, file_info_absent}
use genode_world.Iso9660.Path.Overrun.{search_level_overruns}
use genode_world.Iso9660.Files.Load.{load_content, load_last_byte, IsRam, OnDisc}
use genode_world.Iso9660.Sector.Disc.{IsDisc}
use genode_world.Iso9660.Files.Answers.{create_session-Answered, Answered, IsDrive}
use genode_world.Iso9660.Files.{
  create_session, session, Server, rom_component, lookup, open_uncached, open_file, load,
  page_sized,
}
use genode_world.Iso9660.Path.{
  cached_root, root_dir, locate_root, file_info, walk, search_level, enter, result,
}
use genode_world.Iso9660.Record.{
  locate, file_name, next, scan_name, iso_name, name_of, copy_name, c_string, blk_nr, data_length,
  directory, pad_byte, system_use, system_use_size,
}
use genode_world.Iso9660.Read.{read_file, read_length, read_blocks, store, zero_rest}
use genode_world.Iso9660.Run.{slice}
use genode_world.Prelude.{overwrite, list_eq}
use genode_world.Iso9660.Sector

-- The block number 2^24 + 1 is rounded to another one.
rounded : through_float 16777217 ≡ 16777216
unfolding through_float excess_bits round_even
rounded = refl

abbrev readme_dataspace : List ℕ
readme_dataspace = file_content ++ replicate 2048 0

abbrev after_open : Server
after_open = record { cache = (readme, readme_dataspace) ∷ []; root = some root }

opened : create_session 100 env 200 readme empty_server ≡ (session readme_dataspace, after_open)
unfolding create_session rom_component lookup open_uncached cached_root root_dir locate_root
    open_file file_info walk search_level enter result locate file_name next scan_name iso_name
    name_of copy_name c_string blk_nr data_length directory pad_byte system_use system_use_size load
    page_sized read_file read_length read_blocks store zero_rest slice sector to_blk through_float
    excess_bits round_even Sector.content overwrite list_eq
opened = refl

create_session_again_at_sample :
    create_session 100 env 300 readme (create_session 100 env 200 readme empty_server).1
    ≡ (session readme_dataspace, (create_session 100 env 200 readme empty_server).1)
create_session_again_at_sample =
    create_session_again 100 200 300 env env readme readme_dataspace empty_server
      (ap (λ p. p.0) opened) (omega arith)

all_bytes : List ℕ → Bool
all_bytes [] = true
all_bytes (x ∷ xs) = ltb x 256 && all_bytes xs

all_bytes-AllBytes : (mem : List ℕ) → all_bytes mem ≡ true → AllBytes mem
unfolding all_bytes
all_bytes-AllBytes [] h i b e = cc
all_bytes-AllBytes (x ∷ xs) h zero b e = ground arith
all_bytes-AllBytes (x ∷ xs) h (suc i) b e = all_bytes-AllBytes xs (ground arith) i b e

-- Of two answers of a drive, each with bytes.
either :
    (test : Bool) (x mem : List ℕ) (other : Option (List ℕ))
    → AllBytes x
    → ((m : List ℕ) → other ≡ some m → AllBytes m)
    → (if test then some x else other) ≡ some mem
    → AllBytes mem
either true x mem other ok rest h = let same : x ≡ mem = cc in subst AllBytes same ok
either false x mem other ok rest h = rest mem h

yields : YieldsBytes block
unfolding all_bytes
yields nr count mem h =
    either (nr == 16) descriptor mem _ (all_bytes-AllBytes descriptor refl)
      (λ m e.
        either (nr == 20) entries m _ (all_bytes-AllBytes entries refl)
          (λ m' e'.
            either (nr == 21) file_content m' none (all_bytes-AllBytes file_content refl)
              (λ _ k. cc) e')
          e)
      h

drive : IsDrive env
drive = record { bytes = yields; low = omega arith; high = omega arith; end = refl }

create_session-Answered_example : Answered (create_session 100 env 200 readme empty_server)
create_session-Answered_example = create_session-Answered 100 200 env readme empty_server drive tt

holds : Holds entries dot (dot_dot ∷ file ∷ [])
holds = record { rest = 0 ∷ 0 ∷ []; laid_out = refl; fit = omega arith; zeros = omega arith }

locate-encode_all_example :
    locate 4 entries 0 readme ≡ done (find_entry readme 0 (dot ∷ dot_dot ∷ file ∷ []))
locate-encode_all_example =
    locate-encode_all 4 entries 0 readme dot (dot_dot ∷ file ∷ []) (0 ∷ 0 ∷ []) refl holds.fit
      (omega arith) (omega arith)

dir_sector : DirSector block 20 dot (dot_dot ∷ file ∷ [])
unfolding sector Sector.content through_float excess_bits round_even
dir_sector = record { packet = entries; reads = refl; holds = holds }

is_root : IsRootOf root dot
is_root = record {
  behind = [];
  laid_out = refl;
  extent_fits = omega arith;
  size_fits = omega arith;
}

found_readme : lookup_entry readme (dot ∷ dot_dot ∷ file ∷ []) ≡ some file
unfolding c_string list_eq
found_readme = refl

one_block : to_blk 2048 ≡ 1
unfolding to_blk
one_block = refl

file_info_finds_example :
    file_info scan_path block root readme ≡ done (record { blk_nr = 21; size = 2000 })
file_info_finds_example =
    file_info_finds scan_path block root readme readme dot is_root refl 0 file dot
      (dot_dot ∷ file ∷ []) (λ n h. absurd (omega arith)) dir_sector found_readme
      (record {
        no_directory = refl;
        extent_fits = omega arith;
        size_fits = omega arith;
        not_zero = refl;
      })
      (omega (arith, one_block))

-- The name `x`.
absent_x : lookup_entry (120 ∷ []) (dot ∷ dot_dot ∷ file ∷ []) ≡ none
unfolding c_string list_eq
absent_x = refl

Without-x : (n : ℕ) → n < to_blk 2048 → Without block (120 ∷ []) (20 + n)
Without-x zero h = record {
  first = dot;
  others = dot_dot ∷ file ∷ [];
  there = dir_sector;
  absent = absent_x;
}
Without-x (suc n) h = absurd (omega (arith, one_block))

file_info_absent_example : file_info scan_path block root (120 ∷ []) ≡ throw file_not_found
file_info_absent_example =
    file_info_absent scan_path block root (120 ∷ []) (120 ∷ []) dot is_root refl Without-x
      (omega arith)

-- A record with a POSIX name of 40 characters.
abbrev long_file : Entry
long_file = record {
  name = 82 ∷ [];
  extent = 21;
  size = 2000;
  flags = 0;
  fields = nm (replicate 40 97) ∷ [];
}

absent_dots : find_entry readme 0 (dot ∷ dot_dot ∷ []) ≡ none
unfolding c_string list_eq
absent_dots = refl

locate-LongName_at_sample :
    locate 4 (encode_all (dot ∷ dot_dot ∷ []) (encode long_file (0 ∷ 0 ∷ 0 ∷ []))) 0 readme ≡ beyond
locate-LongName_at_sample =
    locate-LongName 4 (encode_all (dot ∷ dot_dot ∷ []) (encode long_file (0 ∷ 0 ∷ 0 ∷ []))) 0 readme
      (dot ∷ dot_dot ∷ []) long_file (0 ∷ 0 ∷ 0 ∷ []) refl (omega arith) absent_dots
      (record { short = omega arith; posix = replicate 40 97; named = refl; long = omega arith })
      (omega arith) (omega arith)
