-- ===== src/AnonMmap/Calls/Reserve.antt =====
-- A reservation and its end.
use genode_world.Prelude.{
  ℕ, ◌+◌, ◌^◌, ◌<◌, ◌≡◌, refl, ap, ◌∙◌, ◌==◌, ◌&&◌, ◌||◌, not, Bool, true, false, List, [], ◌∷◌,
  Option, some, if◌then◌else◌, arith, if-true, if-false,
}
use genode_world.AnonMmap.Areas.{
  Area, new_area, granted, with_area, inside, reserve, get_base_address, release,
}
use genode_world.AnonMmap.Calls.{
  registered, insert, remove, Process, Env, Result, pointer, code, reserved, pd_reserve_memory,
  Flags, after_reserve, anon_mmap, used_of, reinsert, unmap_registered, anon_munmap,
}
use genode_world.AnonMmap.Calls.Munmap.{munmap-registered}

-- None of the areas has the address.
abbrev pub NotIn : ℕ → List Area → Type 0
NotIn addr [] = Unit
NotIn addr (a ∷ areas) = (inside addr 1 a ≡ false) × NotIn addr areas

pub get_base_address-NotIn :
    (addr : ℕ) (areas : List Area) (found : ℕ × Bool × ℕ)
    → NotIn addr areas
    → get_base_address addr areas found ≡ found
unfolding get_base_address
get_base_address-NotIn addr [] found h = refl
get_base_address-NotIn addr (a ∷ areas) found h =
    ap (get_base_address addr areas) (if-false _ _ _ h.0)
    ∙ get_base_address-NotIn addr areas found h.1

registered-insert : (start : ℕ) (es : List ℕ) → registered start (insert start es) ≡ true
unfolding registered insert
registered-insert start es = ground arith

remove-insert :
    (start : ℕ) (es : List ℕ) → registered start es ≡ false → remove start (insert start es) ≡ es
unfolding insert remove
remove-insert start es h = ground arith

module _ (env : Env) (flags : Flags) (uninitialised : Bool × ℕ) (addr length : ℕ) (p : Process)
    (nonnull : 0 < addr) (some_bytes : 0 < length) (no_wrap : addr + length < 2 ^ 64)
    (takes : env.memory.reserves addr length ≡ granted) (anonymous : flags.anonymous ≡ true)
    (prot_none : flags.prot_none ≡ true) (apart : NotIn addr p.areas)
    (unregistered : registered addr p.registry ≡ false) where
  abbrev reserved_process : Process
  reserved_process = record {
    areas = new_area addr length ∷ p.areas;
    registry = insert addr p.registry;
  }

  reserves :
      (align : ℕ)
      → reserve env.memory length addr align p.areas ≡ (some addr, new_area addr length ∷ p.areas)
  unfolding reserve
  reserves align =
      let set : (addr == 0) ≡ false = ground arith in
      if-false _ _ _ set ∙ ap (λ r. with_area r addr length p.areas) takes

  -- What `anon_munmap` makes of the release.
  abbrev outcome : Option Bool × List Area → Result × Process
  outcome r = (
    code 0,
    record {
      areas = r.1;
      registry = reinsert addr true (used_of r.0) (remove addr reserved_process.registry);
    },
  )

  registers :
      after_reserve env flags addr length addr (record p { areas = new_area addr length ∷ p.areas })
      ≡ (pointer addr, reserved_process)
  unfolding after_reserve
  registers =
      let granted : (addr == 0 || flags.fixed && not (addr == addr)) ≡ false = ground arith in
      if-false _ _ _ granted ∙ if-true _ _ _ prot_none

  mmap_reserves : anon_mmap env flags addr length p ≡ (pointer addr, reserved_process)
  unfolding anon_mmap pd_reserve_memory
  mmap_reserves =
      let anon : not flags.anonymous ≡ false = ground (arith, anonymous) in
      let reserving : (flags.prot_none || addr == 0) ≡ true = ground (arith, prot_none) in
      if-false _ _ _ anon
      ∙ if-true _ _ _ reserving
      ∙ ap (λ o. after_reserve env flags addr length (reserved o p).0 (reserved o p).1)
          (reserves (if env.mmap_align_log2 == 0 then 12 else env.log2 env.mmap_align_log2))
      ∙ registers

  found_new :
      get_base_address addr (new_area addr length ∷ p.areas) (0, uninitialised.0, uninitialised.1)
      ≡ (addr, true, length)
  unfolding get_base_address
  found_new =
      let found : ℕ × Bool × ℕ = (addr, true, length) in
      let has : inside addr 1 (new_area addr length) ≡ true = ground arith in
      ap (get_base_address addr p.areas) (if-true _ _ _ has)
      ∙ get_base_address-NotIn addr p.areas found apart

  releases : release addr length (new_area addr length ∷ p.areas) ≡ (some false, p.areas)
  unfolding release
  releases =
      let has : inside addr length (new_area addr length) ≡ true = ground arith in
      let whole : (addr == addr && length == length) ≡ true = ground arith in
      if-true _ _ _ has ∙ if-true _ _ _ whole

  unregisters : unmap_registered addr addr length true reserved_process ≡ (code 0, p)
  unfolding unmap_registered
  unregisters =
      ap (λ (r : Option Bool × List Area). outcome r) releases
      ∙ ap (λ es. (code 0, record p { registry = es })) (remove-insert addr p.registry unregistered)

  munmap_restores : anon_munmap uninitialised addr length reserved_process ≡ (code 0, p)
  munmap_restores =
      munmap-registered uninitialised addr length addr length reserved_process found_new nonnull
        (registered-insert addr p.registry)
      ∙ unregisters

  -- An anonymous mapping without access of a range that is not empty, does not wrap and is not at
  -- address 0, whose address is not in another area and is not registered, yields this address if
  -- the area can be attached and reserved there; unmapping the whole range afterwards succeeds and
  -- leaves the process as it was before.
  pub anon_munmap-anon_mmap :
      (anon_mmap env flags addr length p).0 ≡ pointer addr
      × anon_munmap uninitialised addr length (anon_mmap env flags addr length p).1 ≡ (code 0, p)
  anon_munmap-anon_mmap = (
    ap (λ r. r.0) mmap_reserves,
    ap (λ r. anon_munmap uninitialised addr length r.1) mmap_reserves ∙ munmap_restores,
  )
