-- ===== src/Iso9660/Sector/Total.antt =====
-- Reading a sector ends: the block session answers every packet.
use genode_world.Prelude.{ℕ, ap, ◌≡◌, ◌≢◌, Option, none, some, List}
use genode_world.Iso9660.Run.{done, throw, unfinished, io_error}
use genode_world.Iso9660.Sector.{Block, sector, content, through_float}

content_ends : (answer : Option (List ℕ)) → content answer ≢ unfinished
unfolding content
content_ends none = λ e. cc
content_ends (some bytes) = λ e. cc

pub sector_ends : (block : Block) (nr count : ℕ) → sector block nr count ≢ unfinished
unfolding sector
sector_ends block nr count = content_ends (block (through_float nr) (through_float count))

content-done :
    (answer : Option (List ℕ)) {bytes : List ℕ} → content answer ≡ done bytes → answer ≡ some bytes
unfolding content
content-done none h = cc
content-done (some b) h = cc

-- A sector is what a packet yields.
pub sector-done :
    (block : Block) (nr count : ℕ) {bytes : List ℕ}
    → sector block nr count ≡ done bytes
    → block (through_float nr) (through_float count) ≡ some bytes
unfolding sector
sector-done block nr count h = content-done _ h

-- A block that cannot be read.
pub sector-none :
    (block : Block) (nr count : ℕ)
    → block (through_float nr) (through_float count) ≡ none
    → sector block nr count ≡ throw io_error
unfolding sector content
sector-none block nr count h = ap content h
