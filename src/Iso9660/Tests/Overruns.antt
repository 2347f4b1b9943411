-- ===== src/Iso9660/Tests/Overruns.antt =====
-- A search beyond a directory below the root.
use genode_world.Prelude.{
  ℕ, suc, ◌+◌, ◌≡◌, refl, List, [], ◌∷◌, none, some, arith, ◌==◌, if◌then◌else◌, length, list_eq,
}
use genode_world.Iso9660.Run.{done, slice}
use genode_world.Iso9660.Sector
use genode_world.Iso9660.Sector.{Block, sector, to_blk, through_float, excess_bits, round_even}
use genode_world.Iso9660.Record.{
  locate, file_name, next, scan_name, iso_name, name_of, copy_name, c_string, data_length, pad_byte,
  system_use, system_use_size,
}
use genode_world.Iso9660.Record.Layout.{Entry, encode_all}
use genode_world.Iso9660.Path.{Walk, in_packet, search_level, enter}
use genode_world.Iso9660.Path.Overrun.{search_level_overruns}
use genode_world.Iso9660.Tests.Discs.{readme, entries, root}

-- A directory of two blocks names itself; the one of one block that is searched stands in block 30.
abbrev large : Entry
large = record { name = 0 ∷ []; extent = 30; size = 4096; flags = 2; fields = [] }

abbrev searched : List ℕ
searched = encode_all (large ∷ []) (0 ∷ 0 ∷ 0 ∷ [])

abbrev drive : Block
drive nr count = if nr == 30 then some searched else if nr == 31 then some entries else none

-- The record of the directory stands at the start of the packet that was read before.
abbrev below : Walk
below = record { packet = entries; dir = in_packet 0; blk_nr = 0; data_length = 0 }

one_block : to_blk 2048 ≡ 1
unfolding to_blk
one_block = refl

two_blocks : to_blk 4096 ≡ 2
unfolding to_blk
two_blocks = refl

reads_searched : sector drive 30 1 ≡ done searched
unfolding sector Sector.content through_float excess_bits round_even
reads_searched = refl

reads_behind : sector drive (30 + 1) 1 ≡ done entries
unfolding sector Sector.content through_float excess_bits round_even
reads_behind = refl

missing : locate (suc (length searched)) searched 0 readme ≡ done none
unfolding locate file_name next scan_name iso_name name_of copy_name c_string pad_byte system_use
    system_use_size slice list_eq
missing = refl

there : locate (suc (length entries)) entries 0 readme ≡ done (some 68)
unfolding locate file_name next scan_name iso_name name_of copy_name c_string pad_byte system_use
    system_use_size slice list_eq
there = refl

size_of_entries : data_length entries 0 ≡ done 2048
unfolding data_length
size_of_entries = refl

size_of_searched : data_length searched 0 ≡ done 4096
unfolding data_length
size_of_searched = refl

search_level_overruns_example :
    search_level 3 drive root readme 30 0 below
    ≡ enter entries 68 (record below { packet = searched })
search_level_overruns_example =
    search_level_overruns drive root readme searched entries 30 0 68 2048 4096 below refl
      size_of_entries one_block reads_searched missing size_of_searched (omega (arith, two_blocks))
      (omega arith) reads_behind there 1
