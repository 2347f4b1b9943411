-- ===== src/AnonMmap/Calls.antt =====
-- The calls of src/lib/libgo_support/file_operations_anon.cc, the registry of mmap_registry.h, and the
-- functions of anon_mmap.cc between them and `Vm_area_registry`.
pub mod Munmap
pub mod Reserve
pub mod Hole
use genode_world.Prelude.{
  ℕ, ◌+◌, ◌==◌, ◌&&◌, ◌||◌, not, Bool, true, false, List, [], ◌∷◌, Option, none, some,
  if◌then◌else◌,
}
use genode_world.AnonMmap.Areas.{Area, Memory, reserve, commit, get_base_address, release}

-- `Mmap_registry`: the start addresses.
unfoldable pub registered : ℕ → List ℕ → Bool
registered start [] = false
registered start (e ∷ es) = e == start || registered start es

unfoldable pub insert : ℕ → List ℕ → List ℕ
unfolding registered
insert start es = if registered start es then es else start ∷ es

unfoldable pub remove : ℕ → List ℕ → List ℕ
remove start [] = []
remove start (e ∷ es) = if e == start then es else e ∷ remove start es

pub record Process : Type 0 where
  pub areas : List Area
  pub registry : List ℕ

-- The environment: Genode's memory and its `log2`, and `_mmap_align_log2`.
pub record Env : Type 0 where
  pub memory : Memory
  pub log2 : ℕ → ℕ
  pub mmap_align_log2 : ℕ

-- What a call returns: an address (0 is a null pointer), a code, `MAP_FAILED`, or what the libc's own
-- function returns.
pub data Result : Type 0 where
  pointer : ℕ → Result
  code : ℕ → Result
  map_failed minus_one libc : Result

-- `pd_reserve_memory`: a null pointer stands for an exception.
abbrev pub reserved : Option ℕ × List Area → Process → ℕ × Process
reserved (none, areas) p = (0, record p { areas = areas })
reserved (some start, areas) p = (start, record p { areas = areas })

unfoldable pub pd_reserve_memory : Env → ℕ → ℕ → ℕ → Process → ℕ × Process
pd_reserve_memory env bytes requested_addr alignment_hint p =
    let align = if alignment_hint == 0 then 12 else env.log2 alignment_hint in
    reserved (reserve env.memory bytes requested_addr align p.areas) p

-- The flags and the protection of a call that are tested.
pub record Flags : Type 0 where
  pub anonymous : Bool
  pub fixed : Bool
  pub prot_none : Bool

-- `pd_commit_memory` and the end of `anon_mmap`.
abbrev pub committed : ℕ → Process → Bool × List Area → Result × Process
committed start p (true, areas) = (pointer start, record p { areas = areas })
committed start p (false, areas) = (pointer 0, record p { areas = areas })

unfoldable pub commit_range : Env → ℕ → ℕ → Process → Result × Process
commit_range env start length p = committed start p (commit env.memory start length p.areas)

-- What follows a reservation.
unfoldable pub after_reserve : Env → Flags → ℕ → ℕ → ℕ → Process → Result × Process
unfolding commit_range insert
after_reserve env flags addr length start p =
    if start == 0 || flags.fixed && not (start == addr)
    then (map_failed, p)
    else (let q : Process = record p { registry = insert start p.registry } in
        if flags.prot_none then (pointer start, q) else commit_range env start length q)

unfoldable pub anon_mmap : Env → Flags → ℕ → ℕ → Process → Result × Process
unfolding pd_reserve_memory after_reserve commit_range
anon_mmap env flags addr length p =
    if not flags.anonymous
    then (libc, p)
    else (if flags.prot_none || addr == 0
        then (let r = pd_reserve_memory env length addr env.mmap_align_log2 p in
            after_reserve env flags addr length r.0 r.1)
        else commit_range env addr length p)

-- The variables `start`, `nanon` and `size` of `anon_munmap`; the last two have no initial value.
abbrev pub found_base : ℕ → ℕ × Bool × ℕ → ℕ
found_base base (ret, nanon, size) = if ret == 0 then base else ret

abbrev pub used_of : Option Bool → Bool
used_of none = false
used_of (some used) = used

-- The registry when the range has been released.
abbrev pub reinsert : ℕ → Bool → Bool → List ℕ → List ℕ
reinsert start nanon used es = if nanon && not used then es else insert start es

unfoldable pub unmap_registered : ℕ → ℕ → ℕ → Bool → Process → Result × Process
unmap_registered start base length nanon p =
    let r = release base length p.areas in
    (
      code 0,
      record {
        areas = r.1;
        registry = reinsert start nanon (used_of r.0) (remove start p.registry);
      },
    )

unfoldable pub anon_munmap : Bool × ℕ → ℕ → ℕ → Process → Result × Process
unfolding unmap_registered registered
anon_munmap uninitialised base length p =
    let found = get_base_address base p.areas (0, uninitialised.0, uninitialised.1) in
    let start = found_base base found in
    if found.1 && not (registered start p.registry)
    then (libc, p)
    else unmap_registered start base length found.1 p

unfoldable pub anon_msync : ℕ → Process → Result
unfolding registered
anon_msync start p = if registered start p.registry then minus_one else libc
