-- ===== src/Iso9660/Files.antt =====
-- `File`, `Rom_component` and `Root` of src/server/iso9660/main.cc.
pub mod Load
pub mod Sessions
pub mod Answers
use genode_world.Prelude.{
  ℕ, suc, ◌+◌, ◌-◌, ◌*◌, ◌/◌, ◌%◌, ◌^◌, ltb, if◌then◌else◌, Bool, true, false, List, [], ◌∷◌,
  Option, none, some, take, length, list_eq, u32,
}
use genode_world.Iso9660.Run.{
  Run, done, throw, beyond, unfinished, ◌>>=◌, Exception, io_error, non_data_disc, file_not_found,
}
use genode_world.Iso9660.Sector.{Block}
use genode_world.Iso9660.Path.{Scanner, FileInfo, file_info, cached_root}
use genode_world.Iso9660.Read.{read_file}

abbrev pub page_size : ℕ
page_size = 4096

-- `File_info::page_sized`
unfoldable pub page_sized : FileInfo → ℕ
page_sized info = (info.size + (page_size - 1)) % 2 ^ 64 / page_size * page_size

-- The environment: the block session, Genode's scanner for paths, the memory of a dataspace that is
-- attached for a size rounded up to pages, and the blocks among which the root is looked for.
pub record Env : Type 0 where
  pub block : Block
  pub scan : Scanner
  pub ram : ℕ → List ℕ
  pub volumes : ℕ

-- The body of the constructor `File`: the dataspace with what was read from the disc.
unfoldable pub load : Block → (ℕ → List ℕ) → FileInfo → Run (List ℕ)
load block ram info = do
  let ds = ram (page_sized info)
  (ret, mem) ← read_file block info 0 (u32 (length ds)) ds
  done mem

-- `Iso::File`
unfoldable pub open_file : Env → List ℕ → List ℕ → Run (List ℕ)
open_file env root path = do
  info ← file_info env.scan env.block root path
  load env.block env.ram info

-- The cache holds the dataspaces of the files by their paths; `root` is `_root_dir`.
pub record Server : Type 0 where
  pub cache : List (List ℕ × List ℕ)
  pub root : Option (List ℕ)

unfoldable pub lookup : List ℕ → List (List ℕ × List ℕ) → Option (List ℕ)
lookup path [] = none
lookup path ((name, ds) ∷ rest) = if list_eq name path then some ds else lookup path rest

-- What the client gets: the dataspace or a refusal. `crashed` stands for an access beyond memory,
-- `hangs` for a run that is not over within the fuel.
pub data Reply : Type 0 where
  session : List ℕ → Reply
  service_denied insufficient_ram_quota crashed hangs : Reply

abbrev pub reply : Run (List ℕ) → Reply
reply (done ds) = session ds
reply (throw io_error) = service_denied
reply (throw non_data_disc) = service_denied
reply (throw file_not_found) = service_denied
reply beyond = crashed
reply unfinished = hangs

-- A file that was opened is entered into the cache, which no session takes it from.
abbrev pub remember : List ℕ → Run (List ℕ) → Server → Server
remember path (done ds) s = record s { cache = (path, ds) ∷ s.cache }
remember path (throw e) s = s
remember path beyond s = s
remember path unfinished s = s

-- A root that was located is kept, also if the file is not found.
abbrev pub with_root : Run (List ℕ) → Server → Server
with_root (done root) s = record s { root = some root }
with_root (throw e) s = s
with_root beyond s = s
with_root unfinished s = s

-- The cache miss of `Rom_component`.
unfoldable pub open_uncached : Env → List ℕ → Server → Reply × Server
open_uncached env path s =
    let root = cached_root env.volumes env.block s.root in
    let file = root >>= λ r. open_file env r path in
    (reply file, remember path file (with_root root s))

abbrev pub from_cache : Env → List ℕ → Server → Option (List ℕ) → Reply × Server
from_cache env path s (some ds) = (session ds, s)
from_cache env path s none = open_uncached env path s

-- `Rom_component`
unfoldable pub rom_component : Env → List ℕ → Server → Reply × Server
rom_component env path s = from_cache env path s (lookup path s.cache)

-- `_create_session`: `md_size` is `sizeof(File) + sizeof(File_info)`, and `_path` has 128 bytes.
unfoldable pub create_session : ℕ → Env → ℕ → List ℕ → Server → Reply × Server
create_session md_size env ram_quota label s =
    if ltb ram_quota md_size
    then (insufficient_ram_quota, s)
    else rom_component env (take 127 label) s
