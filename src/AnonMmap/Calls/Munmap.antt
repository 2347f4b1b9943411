-- ===== src/AnonMmap/Calls/Munmap.antt =====
-- `anon_munmap` on an address of an area that is not the main one.
use genode_world.Prelude.{
  ℕ, ◌<◌, ◌≡◌, ap, ◌∙◌, ◌&&◌, not, Bool, true, false, if◌then◌else◌, arith, if-true, if-false,
}
use genode_world.AnonMmap.Areas.{get_base_address}
use genode_world.AnonMmap.Calls.{
  registered, Process, Result, libc, found_base, unmap_registered, anon_munmap,
}

module _ (uninitialised : Bool × ℕ) (base length start size : ℕ) (p : Process)
    (found : get_base_address base p.areas (0, uninitialised.0, uninitialised.1)
      ≡ (start, true, size))
    (nonnull : 0 < start) where
  abbrev at_base : ℕ → Result × Process
  at_base s =
      if true && not (registered s p.registry)
      then (libc, p)
      else unmap_registered s base length true p

  abbrev search : ℕ × Bool × ℕ → Result × Process
  search f =
      if f.1 && not (registered (found_base base f) p.registry)
      then (libc, p)
      else unmap_registered (found_base base f) base length f.1 p

  at_start : anon_munmap uninitialised base length p ≡ at_base start
  unfolding anon_munmap
  at_start =
      let same : found_base base (start, true, size) ≡ start = ground arith in
      ap search found ∙ ap at_base same

  pub munmap-registered :
      registered start p.registry ≡ true
      → anon_munmap uninitialised base length p ≡ unmap_registered start base length true p
  munmap-registered known =
      let test : (true && not (registered start p.registry)) ≡ false = ground (arith, known) in
      at_start ∙ if-false _ _ _ test

  pub munmap_foreign :
      registered start p.registry ≡ false → anon_munmap uninitialised base length p ≡ (libc, p)
  munmap_foreign unknown =
      let test : (true && not (registered start p.registry)) ≡ true = ground (arith, unknown) in
      at_start ∙ if-true _ _ _ test
