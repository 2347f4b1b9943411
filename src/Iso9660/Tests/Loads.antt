-- ===== src/Iso9660/Tests/Loads.antt =====
-- Opened files at small discs.
use genode_world.Prelude.{
  ℕ, ◌*◌, ◌≡◌, refl, List, some, take, drop, length, get_elem?, replicate, arith,
}
use genode_world.Iso9660.Run.{done}
use genode_world.Iso9660.Sector.{Block}
use genode_world.Iso9660.Files.{load, page_sized}
use genode_world.Iso9660.Files.Load.{load_content, load_last_byte}
use genode_world.Iso9660.Tests.Discs.{ram}

-- A file of 2000 bytes on a disc of one block, and one of 2049 bytes.
abbrev image : List ℕ
image = replicate 2048 7

abbrev disc : Block
disc nr count = some (take (count * 2048) (drop (nr * 2048) image))

load_content_example :
    (mem : List ℕ) × (load disc ram (record { blk_nr = 0; size = 2000 }) ≡ done mem)
    × (length mem ≡ page_sized (record { blk_nr = 0; size = 2000 }))
    × (take 2000 mem ≡ take 2000 image)
load_content_example =
    load_content disc ram image (record { blk_nr = 0; size = 2000 })
      (record { reads = λ nr count h. refl }) (record { zeroed = λ n h. refl })
      (record {
        some_bytes = omega arith;
        small = omega arith;
        low = omega arith;
        inside = omega arith;
      })
      (omega arith)

load_last_byte_example :
    (mem : List ℕ) × (load disc ram (record { blk_nr = 0; size = 2049 }) ≡ done mem)
    × (take 2048 mem ≡ take 2048 (take 2049 image))
    × (get_elem? mem 2048 ≡ some 0)
load_last_byte_example =
    load_last_byte disc ram image (record { blk_nr = 0; size = 2049 })
      (record { reads = λ nr count h. refl }) (record { zeroed = λ n h. refl })
      (record {
        some_bytes = omega arith;
        small = omega arith;
        low = omega arith;
        inside = omega arith;
      })
      (omega arith)
