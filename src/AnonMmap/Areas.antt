-- ===== src/AnonMmap/Areas.antt =====
-- `Vm_area` and `Vm_area_registry` of src/lib/libgo_support/anon_mmap.cc.
pub mod Crossing
pub mod Release
pub mod Exact
pub mod Cycle
use genode_world.Prelude.{
  ℕ, ◌+◌, ◌==◌, ◌&&◌, not, Bool, true, false, List, [], ◌∷◌, Option, none, some, min, max, ltb, leb,
  if◌then◌else◌, add_size, sub_size,
}

pub record Range : Type 0 where
  pub base : ℕ
  pub size : ℕ

-- `get_crossing_range`: what the query and the range have in common.
pub crossing : ℕ → ℕ → Range → Option Range
crossing q_base q_size r =
    let start = max q_base r.base in
    if ltb r.base (add_size q_base (if q_size == 0 then 1 else q_size))
      && ltb q_base (add_size r.base r.size)
    then some (record {
      base = start;
      size = sub_size (min (add_size q_base q_size) (add_size r.base r.size)) start;
    })
    else none

-- `ds` are the ranges with a dataspace of their own, which is attached, and `mapped` the parts of them
-- that the code keeps as mapped. The area `main` serves reservations without an address, and stays.
pub record Area : Type 0 where
  pub base : ℕ
  pub size : ℕ
  pub main : Bool
  pub ds : List Range
  pub mapped : List Range

abbrev pub inside : ℕ → ℕ → Area → Bool
inside base size a = leb a.base base && leb (add_size base size) (add_size a.base a.size)

-- What becomes of a new area: it cannot be attached at its address, its range allocator fails, or it
-- is reserved.
pub data Reserving : Type 0 where
  region_conflict alloc_error granted : Reserving

-- The memory of Genode: whether the region map takes a range of the area, what the range allocator
-- of the area finds for a size and the logarithm of an alignment, and whether an area is reserved.
pub record Memory : Type 0 where
  pub attaches : ℕ → ℕ → Area → Bool
  pub alloc : ℕ → ℕ → Area → Option ℕ
  pub reserves : ℕ → ℕ → Reserving

-- `Vm_area::commit`, with what it returns.
pub commit_area : Memory → ℕ → ℕ → Area → Bool × Area
commit_area mem base size a =
    let r : Range = record { base = base; size = size } in
    if inside base size a && mem.attaches base size a
    then (true, record a { ds = r ∷ a.ds; mapped = r ∷ a.mapped })
    else (false, a)

-- `Vm_area_registry::commit`: the first area that takes the range.
pub commit : Memory → ℕ → ℕ → List Area → Bool × List Area
unfolding commit_area
commit mem base size [] = (false, [])
commit mem base size (a ∷ areas) =
    let (done, b) = commit_area mem base size a in
    let (later, rest) = commit mem base size areas in
    if done then (true, b ∷ areas) else (later, b ∷ rest)

main_area : List Area → Option Area
main_area [] = none
main_area (a ∷ areas) = let rest = main_area areas in if a.main then some a else rest

abbrev pub new_area : ℕ → ℕ → Area
new_area base size = record { base = base; size = size; main = false; ds = []; mapped = [] }

-- An area whose range allocator fails stays in the registry.
abbrev pub with_area : Reserving → ℕ → ℕ → List Area → Option ℕ × List Area
with_area region_conflict base size areas = (none, areas)
with_area alloc_error base size areas = (none, new_area base size ∷ areas)
with_area granted base size areas = (some base, new_area base size ∷ areas)

-- `Vm_region_map::alloc`
abbrev pub alloc_in : Memory → ℕ → ℕ → Option Area → Option ℕ
alloc_in mem size align none = none
alloc_in mem size align (some a) = mem.alloc size (if ltb 12 align then align else 12) a

-- `Vm_area_registry::reserve`, where 0 stands for no address; `none` is an exception.
unfoldable pub reserve : Memory → ℕ → ℕ → ℕ → List Area → Option ℕ × List Area
unfolding main_area
reserve mem size base align areas =
    if base == 0
    then (alloc_in mem size align (main_area areas), areas)
    else with_area (mem.reserves base size) base size areas

-- `get_base_address`: the last area that has the address, since `success` is never set; with
-- whether it is another one than the main area.
unfoldable pub get_base_address : ℕ → List Area → ℕ × Bool × ℕ → ℕ × Bool × ℕ
get_base_address base [] found = found
get_base_address base (a ∷ areas) found =
    get_base_address base areas (if inside base 1 a then (a.base, not a.main, a.size) else found)

-- The variables of the search in `release`, that of the last range crossed.
pub record Scan : Type 0 where
  pub used : Bool
  pub need_new_chunk : Bool
  pub newaddr : ℕ
  pub newsize : ℕ
  pub oldaddr : ℕ
  pub oldsize : ℕ

-- What is behind the part that becomes free.
abbrev pub rest_behind : Scan → Range
rest_behind s = record {
  base = add_size s.newaddr s.newsize;
  size = sub_size (sub_size (add_size s.oldaddr s.oldsize) s.newaddr) s.newsize;
}

-- The variables for a range `r` of which the part `c` becomes free.
abbrev pub crossed : Range → Range → Scan → Scan
crossed c r s = record s { newaddr = c.base; newsize = c.size; oldaddr = r.base; oldsize = r.size }

abbrev pub has_front : Range → Range → Bool
has_front c r = not (r.base == c.base)

abbrev pub has_back : Range → Range → Bool
has_back c r = not (add_size c.base c.size == add_size r.base r.size)

abbrev pub front : Range → Range → Range
front c r = record { base = r.base; size = sub_size c.base r.base }

-- What stays of a range in its place: its front, or its back, if it has one of these.
pub divide : Range → Range → Scan → Option Range × Scan
divide c r s =
    if has_front c r
    then (if has_back c r
        then (some (front c r), record (crossed c r s) { need_new_chunk = true })
        else (some (front c r), record (crossed c r s) { used = true }))
    else (if has_back c r
        then (some (rest_behind (crossed c r s)), record (crossed c r s) { used = true })
        else (none, crossed c r s))

visit_result : Range → Scan → Option Range → Option Range × Scan
unfolding divide
visit_result r s none = (some r, record s { used = true })
visit_result r s (some c) = divide c r s

-- One round of the search.
pub visit : ℕ → ℕ → Range → Scan → Option Range × Scan
unfolding crossing visit_result
visit base size r s = visit_result r s (crossing base size r)

abbrev pub cons_kept : Option Range → List Range × Scan → List Range × Scan
cons_kept none w = w
cons_kept (some k) w = (k ∷ w.0, w.1)

-- The search through the ranges that are mapped.
pub scan : ℕ → ℕ → List Range → Scan → List Range × Scan
unfolding visit
scan base size [] s = ([], s)
scan base size (r ∷ rs) s = let v = visit base size r s in cons_kept v.0 (scan base size rs v.1)

abbrev pub no_scan : Scan
no_scan = record {
  used = false;
  need_new_chunk = false;
  newaddr = 0;
  newsize = 0;
  oldaddr = 0;
  oldsize = 0;
}

-- The part of `release` that divides the ranges of an area, and whether any is said to be in use.
pub release_part : ℕ → ℕ → Area → Bool × Area
unfolding scan
release_part base size a =
    let (kept, s) = scan base size a.mapped no_scan in
    (s.used, record a { mapped = if s.need_new_chunk then rest_behind s ∷ kept else kept })

-- `Vm_area_registry::release`: `none` if no area has the range, else the value of `area_used`.
unfoldable pub release : ℕ → ℕ → List Area → Option Bool × List Area
unfolding release_part
release base size [] = (none, [])
release base size (a ∷ areas) =
    let (used, b) = release_part base size a in
    let (later, rest) = release base size areas in
    if inside base size a
    then (if base == a.base && size == a.size
        then (some false, if a.main then a ∷ areas else areas)
        else (some used, b ∷ areas))
    else (later, a ∷ rest)
