-- ===== src/AnonMmap/Calls/Hole.antt =====
-- A hole in the middle of a mapping, and what becomes of the rest.
use genode_world.Prelude.{
  ℕ, ◌+◌, ◌≤◌, ◌<◌, ◌≡◌, refl, ap, ◌∙◌, ◌==◌, ◌&&◌, not, Bool, true, false, List, [], ◌∷◌, Option,
  some, arith, if-true, if-false,
}
use genode_world.AnonMmap.Areas.{Range, Area, inside, get_base_address, release, release_part}
use genode_world.AnonMmap.Areas.Crossing.{Proper}
use genode_world.AnonMmap.Areas.Release.{any_within}
use genode_world.AnonMmap.Areas.Cycle.{hole_unused, release_part-area}
use genode_world.AnonMmap.Calls.{
  registered, remove, Process, Result, code, libc, used_of, reinsert, unmap_registered, anon_munmap,
}
use genode_world.AnonMmap.Calls.Munmap.{munmap-registered, munmap_foreign}
use genode_world.AnonMmap.Calls.Reserve.{NotIn, get_base_address-NotIn}

-- The process with the area `a` in front, which is not the main one, lies at another address than 0
-- and is registered once; no other area has the two addresses.
pub record Owns (a : Area) (rest : List Area) (registry : List ℕ) (q r : Range) : Type 0 where
  pub not_main : a.main ≡ false
  pub nonnull : 0 < a.base
  pub once : registered a.base registry ≡ true
  pub only_once : registered a.base (remove a.base registry) ≡ false
  pub has_hole : inside q.base q.size a ≡ true
  pub has_hole_start : inside q.base 1 a ≡ true
  pub has_start : inside r.base 1 a ≡ true
  pub apart_hole : NotIn q.base rest
  pub apart_start : NotIn r.base rest
  pub within : a.base ≤ r.base

module _ (uninitialised : Bool × ℕ) (q r : Range) (a : Area) (rest : List Area) (registry : List ℕ)
    (pq : Proper q) (pr : Proper r) (alone : a.mapped ≡ r ∷ []) (low : r.base < q.base)
    (high : q.base + q.size < r.base + r.size) (owns : Owns a rest registry q r) where
  abbrev before : Process
  before = record { areas = a ∷ rest; registry = registry }

  abbrev divided : Area
  divided = (release_part q.base q.size a).1

  abbrev after : Process
  after = record { areas = divided ∷ rest; registry = remove a.base registry }

  releases : release q.base q.size (a ∷ rest) ≡ (some false, divided ∷ rest)
  unfolding release
  releases =
      let unused = (hole_unused q r a pq pr alone low high).0 in
      let part : (q.base == a.base && q.size == a.size) ≡ false =
        let w = owns.within in ground (arith, low) in
      if-true _ _ _ owns.has_hole ∙ if-false _ _ _ part ∙ ap (λ u. (some u, divided ∷ rest)) unused

  -- The search for an area that is divided or not.
  finds :
      (b : Area) (addr : ℕ)
      → b.base ≡ a.base
      → b.size ≡ a.size
      → b.main ≡ a.main
      → inside addr 1 a ≡ true
      → NotIn addr rest
      → get_base_address addr (b ∷ rest) (0, uninitialised.0, uninitialised.1)
        ≡ (a.base, true, a.size)
  unfolding get_base_address
  finds b addr base size main has apart =
      let b_has : inside addr 1 b ≡ true = ground (arith, base, size, has) in
      let picked : ℕ × Bool × ℕ = (a.base, true, a.size) in
      let own : (b.base, not b.main, b.size) ≡ picked =
        ground (arith, base, size, main, owns.not_main) in
      ap (get_base_address addr rest) (if-true _ _ _ b_has ∙ own)
      ∙ get_base_address-NotIn addr rest picked apart

  abbrev outcome : Option Bool × List Area → Result × Process
  outcome r = (
    code 0,
    record { areas = r.1; registry = reinsert a.base true (used_of r.0) (remove a.base registry) },
  )

  unregisters : anon_munmap uninitialised q.base q.size before ≡ (code 0, after)
  unregisters =
      munmap-registered uninitialised q.base q.size a.base a.size before
        (finds a q.base refl refl refl owns.has_hole_start owns.apart_hole) owns.nonnull owns.once
      ∙ unfold unmap_registered in ap outcome releases

  rest_is_foreign : (n : ℕ) → anon_munmap uninitialised r.base n after ≡ (libc, after)
  rest_is_foreign n =
      let same = release_part-area q.base q.size a in
      munmap_foreign uninitialised r.base n a.base a.size after
        (finds divided r.base (ap (λ b. b.base) same) (ap (λ b. b.size) same)
          (ap (λ b. b.main) same) owns.has_start owns.apart_start)
        owns.nonnull owns.only_once

  -- Unmapping the middle of the only mapped range of an area that the process owns (`Owns`)
  -- succeeds; afterwards the start of the range is still in the list of mapped ranges, but
  -- unmapping it is passed on to the libc's munmap and changes nothing.
  pub hole_to_libc :
      (n : ℕ)
      → (anon_munmap uninitialised q.base q.size before).0 ≡ code 0
        × any_within divided.mapped r.base ≡ true
        × anon_munmap uninitialised r.base n (anon_munmap uninitialised q.base q.size before).1
          ≡ (libc, (anon_munmap uninitialised q.base q.size before).1)
  hole_to_libc n =
      let still_mapped = (hole_unused q r a pq pr alone low high).1 in
      rw unregisters (refl, still_mapped, rest_is_foreign n)
