-- ===== src/AnonMmap/Tests.antt =====
-- The theorems about mapped ranges at concrete ones.
use genode_world.Prelude.{◌≡◌, refl, inr, true, false, ◌&&◌, not, [], ◌∷◌, none, arith}
use genode_world.AnonMmap.Areas.{Range, Area, Memory, granted, crossing, commit_area, release_part}
use genode_world.AnonMmap.Areas.Crossing.{Proper, Meets, crossing-Meets}
use genode_world.AnonMmap.Areas.Release.{within, any_within, Disjoint}
use genode_world.AnonMmap.Areas.Exact.{release_part_exact}
use genode_world.AnonMmap.Areas.Cycle.{range, commit_release, hole_unused}
use genode_world.AnonMmap.Calls.{
  Env, Flags, Process, anon_mmap, anon_munmap, pointer, code, libc, registered, remove,
}
use genode_world.AnonMmap.Calls.Reserve.{anon_munmap-anon_mmap}
use genode_world.AnonMmap.Calls.Hole.{Owns, hole_to_libc}

abbrev middle : Range
middle = range 8192 4096

abbrev whole : Range
whole = range 4096 16384

middle-Proper : Proper middle
middle-Proper = record { nonempty = omega arith; bounded = omega arith }

whole-Proper : Proper whole
whole-Proper = record { nonempty = omega arith; bounded = omega arith }

abbrev area : Area
area = record { base = 4096; size = 65536; main = false; ds = whole ∷ []; mapped = whole ∷ [] }

crossing-Meets_at_sample : Meets middle whole 8200 (crossing 8192 4096 whole)
crossing-Meets_at_sample = crossing-Meets middle whole 8200 middle-Proper whole-Proper

disjoint : Disjoint (whole ∷ [])
disjoint = (whole-Proper, tt, tt)

release_part_exact_example :
    (any_within (release_part 8192 4096 area).1.mapped 8200
      ≡ (any_within area.mapped 8200 && not (within middle 8200)))
    × ((release_part 8192 4096 area).1.ds ≡ area.ds)
release_part_exact_example = release_part_exact middle area 8200 middle-Proper disjoint

hole_unused_at_sample :
    ((release_part 8192 4096 area).0 ≡ false)
    × (any_within (release_part 8192 4096 area).1.mapped 4096 ≡ true)
hole_unused_at_sample =
    hole_unused middle whole area middle-Proper whole-Proper refl (omega arith) (omega arith)

abbrev memory : Memory
memory = record {
  attaches = λ base size a. true;
  alloc = λ size align a. none;
  reserves = λ base size. granted;
}

abbrev behind : Range
behind = range 20480 4096

behind-Proper : Proper behind
behind-Proper = record { nonempty = omega arith; bounded = omega arith }

commit_release_at_sample :
    any_within (release_part 20480 4096 (commit_area memory 20480 4096 area).1).1.mapped 5000
    ≡ any_within area.mapped 5000
commit_release_at_sample =
    commit_release memory 20480 4096 area 5000 refl refl behind-Proper (inr (omega arith), tt)
      disjoint

abbrev env : Env
env = record { memory = memory; log2 = λ n. 3; mmap_align_log2 = 12 }

abbrev reservation : Flags
reservation = record { anonymous = true; fixed = true; prot_none = true }

-- A process with the area `area`, to which another one is added.
abbrev process : Process
process = record { areas = area ∷ []; registry = 4096 ∷ [] }

anon_munmap-anon_mmap_example :
    (anon_mmap env reservation 131072 8192 process).0 ≡ pointer 131072
    × anon_munmap (false, 0) 131072 8192 (anon_mmap env reservation 131072 8192 process).1
      ≡ (code 0, process)
unfolding registered
anon_munmap-anon_mmap_example =
    anon_munmap-anon_mmap env reservation (false, 0) 131072 8192 process (omega arith) (omega arith)
      (omega arith) refl refl refl (refl, tt) refl

owns : Owns area [] (4096 ∷ []) middle whole
unfolding registered remove
owns = record {
  not_main = refl;
  nonnull = omega arith;
  once = refl;
  only_once = refl;
  has_hole = refl;
  has_hole_start = refl;
  has_start = refl;
  apart_hole = tt;
  apart_start = tt;
  within = omega arith;
}

hole_to_libc_example :
    (anon_munmap (false, 0) 8192 4096 process).0 ≡ code 0
    × any_within (release_part 8192 4096 area).1.mapped 4096 ≡ true
    × anon_munmap (false, 0) 4096 4096 (anon_munmap (false, 0) 8192 4096 process).1
      ≡ (libc, (anon_munmap (false, 0) 8192 4096 process).1)
hole_to_libc_example =
    hole_to_libc (false, 0) middle whole area [] (4096 ∷ []) middle-Proper whole-Proper refl
      (omega arith) (omega arith) owns 4096
