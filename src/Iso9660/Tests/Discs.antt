-- ===== src/Iso9660/Tests/Discs.antt =====
-- A disc with the file `readme` of 2000 bytes in its root directory.
use genode_world.Prelude.{ℕ, List, [], ◌∷◌, ◌++◌, none, some, replicate, ◌==◌, if◌then◌else◌}
use genode_world.Iso9660.Sector.{Block}
use genode_world.Iso9660.Record.Layout.{Entry, Field, encode, encode_all}
use genode_world.Iso9660.Path.{ident, Scanner}
use genode_world.Iso9660.Files.{Env, Server}

-- The text `readme`.
abbrev pub readme : List ℕ
readme = 114 ∷ 101 ∷ 97 ∷ 100 ∷ 109 ∷ 101 ∷ []

abbrev pub nm : List ℕ → Field
nm name = record { first = 0x4e; second = 0x4d; flags = 0; payload = name }

abbrev pub dot : Entry
dot = record { name = 0 ∷ []; extent = 20; size = 2048; flags = 2; fields = [] }

abbrev pub dot_dot : Entry
dot_dot = record { name = 1 ∷ []; extent = 20; size = 2048; flags = 2; fields = [] }

-- The file, under the name `R` and with the POSIX name `readme`.
abbrev pub file : Entry
file = record { name = 82 ∷ []; extent = 21; size = 2000; flags = 0; fields = nm readme ∷ [] }

abbrev pub root : List ℕ
root = encode dot []

abbrev pub descriptor : List ℕ
descriptor = 1 ∷ (replicate 155 0 ++ root)

abbrev pub entries : List ℕ
entries = encode_all (dot ∷ dot_dot ∷ file ∷ []) (0 ∷ 0 ∷ 0 ∷ [])

abbrev pub file_content : List ℕ
file_content = replicate 2048 7

abbrev pub block : Block
block nr count =
    if nr == 16
    then some descriptor
    else if nr == 20
    then some entries
    else if nr == 21
    then some file_content
    else none

-- A scanner for paths of one level.
abbrev pub scan_path : Scanner
scan_path policy path = ident path ∷ []

abbrev pub ram : ℕ → List ℕ
ram n = replicate n 0

abbrev pub env : Env
env = record { block = block; scan = scan_path; ram = ram; volumes = 22 }

abbrev pub empty_server : Server
empty_server = record { cache = []; root = none }
