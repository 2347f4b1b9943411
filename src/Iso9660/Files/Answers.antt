-- ===== src/Iso9660/Files/Answers.antt =====
-- The service answers every request.
use genode_world.Prelude.{
  ℕ, ◌^◌, ◌≤◌, ◌<◌, ◌≡◌, ◌≢◌, refl, sym, subst, ltb, List, Option, none, some, take, length, inl,
  inr, Bool-cases, u32,
}
use genode_world.Iso9660.Run.{
  Run, done, throw, beyond, unfinished, ◌>>=◌, io_error, non_data_disc, file_not_found, Gives,
  Gives-bind, ends-Gives, bind_ends,
}
use genode_world.Iso9660.Sector.{Block}
use genode_world.Iso9660.Read.{read_file}
use genode_world.Iso9660.Read.Total.{read_file_ends}
use genode_world.Iso9660.Path.{file_info, cached_root, FileInfo}
use genode_world.Iso9660.Path.Total.{YieldsBytes}
use genode_world.Iso9660.Path.Ends.{file_info_ends, cached_root-AllBytes, IsRoot}
use genode_world.Iso9660.Record.Fields.{AllBytes}
use genode_world.Iso9660.Files.{
  Env, Server, Reply, hangs, reply, remember, with_root, open_uncached, from_cache, rom_component,
  create_session, lookup, open_file, load, page_sized,
}

load_ends : (block : Block) (ram : ℕ → List ℕ) (info : FileInfo) → load block ram info ≢ unfinished
unfolding load
load_ends block ram info =
    let buf : List ℕ = ram (page_sized info) in
    bind_ends (read_file block info 0 (u32 (length buf)) buf) (λ p. done p.1)
      (read_file_ends block info 0 (u32 (length buf)) buf) (λ p _ e. cc)

reply-hangs : (file : Run (List ℕ)) → file ≢ unfinished → reply file ≢ hangs
reply-hangs (done ds) h = λ e. cc
reply-hangs (throw io_error) h = λ e. cc
reply-hangs (throw non_data_disc) h = λ e. cc
reply-hangs (throw file_not_found) h = λ e. cc
reply-hangs beyond h = λ e. cc
reply-hangs unfinished h = absurd (h refl)

remember-root :
    (path : List ℕ) (file : Run (List ℕ)) (s : Server) → (remember path file s).root ≡ s.root
remember-root path (done ds) s = refl
remember-root path (throw e) s = refl
remember-root path beyond s = refl
remember-root path unfinished s = refl

-- A drive that yields bytes, with a disc of at least 16 and fewer than 2^24 blocks.
pub record IsDrive (env : Env) : Type 0 where
  pub bytes : YieldsBytes env.block
  pub low : env.volumes < 2 ^ 24
  pub high : 16 ≤ env.volumes
  pub end : env.block env.volumes 1 ≡ none

Gives-weaken : (m : Run (List ℕ)) → m ≢ unfinished → Gives m (λ ds. Unit)
Gives-weaken (done ds) h = tt
Gives-weaken (throw e) h = tt
Gives-weaken beyond h = tt
Gives-weaken unfinished h = absurd (h refl)

open_file_ends :
    (env : Env) (root path : List ℕ)
    → YieldsBytes env.block
    → AllBytes root
    → open_file env root path ≢ unfinished
unfolding open_file
open_file_ends env root path bytes ok =
    bind_ends (file_info env.scan env.block root path) (λ info. load env.block env.ram info)
      (file_info_ends env.block bytes env.scan root path ok)
      (λ info _. load_ends env.block env.ram info)

with_root-IsRoot :
    (root : Run (List ℕ)) (s : Server)
    → Gives root AllBytes
    → IsRoot s.root
    → IsRoot (with_root root s).root
with_root-IsRoot (done r) s h ok = h
with_root-IsRoot (throw e) s h ok = ok
with_root-IsRoot beyond s h ok = ok
with_root-IsRoot unfinished s h ok = ok

-- An answer, and a server as before.
abbrev pub Answered : Reply × Server → Type 0
Answered p = (p.0 ≢ hangs) × IsRoot p.1.root

open_uncached-Answered :
    (env : Env) (path : List ℕ) (s : Server)
    → IsDrive env
    → IsRoot s.root
    → Answered (open_uncached env path s)
unfolding open_uncached
open_uncached-Answered env path s drive ok =
    let root = cached_root env.volumes env.block s.root in
    let file = root >>= λ r. open_file env r path in
    let root_ok : Gives root AllBytes =
      cached_root-AllBytes env.block drive.bytes env.volumes drive.low drive.end s.root drive.high
        ok in
    let over : Gives file (λ ds. Unit) =
      Gives-bind root (λ r. open_file env r path) AllBytes _ root_ok
        (λ r h. Gives-weaken _ (open_file_ends env r path drive.bytes h)) in
    (
      reply-hangs file (ends-Gives file _ over),
      subst IsRoot (sym (remember-root path file (with_root root s)))
          (with_root-IsRoot root s root_ok ok),
    )

from_cache-Answered :
    (env : Env) (path : List ℕ) (s : Server) (cached : Option (List ℕ))
    → IsDrive env
    → IsRoot s.root
    → Answered (from_cache env path s cached)
from_cache-Answered env path s (some ds) drive ok = (λ e. cc, ok)
from_cache-Answered env path s none drive ok = open_uncached-Answered env path s drive ok

-- Whatever bytes a disc of at least 16 and fewer than 2^24 blocks has, every request for a session
-- comes to an end, be it by an access beyond memory: none of the loops that it runs through lasts
-- longer than its fuel, and the root record that is kept consists of bytes again.
pub create_session-Answered :
    (md_size quota : ℕ) (env : Env) (label : List ℕ) (s : Server)
    → IsDrive env
    → IsRoot s.root
    → Answered (create_session md_size env quota label s)
unfolding create_session rom_component
create_session-Answered md_size quota env label s drive ok = elim (Bool-cases (ltb quota md_size)) [
  | inl y ↦ rw y (λ e. cc, ok)
  | inr n ↦
      rw n (from_cache-Answered env (take 127 label) s (lookup (take 127 label) s.cache) drive ok)
]
