-- ===== src/AnonMmap/Areas/Cycle.antt =====
-- A range that is committed and released, and what a release says of the area.
use genode_world.Prelude.{
  ℕ, ◌+◌, ◌<◌, ◌≡◌, refl, sym, ap, ◌∙◌, Bool, true, false, ◌&&◌, ◌||◌, not, [], ◌∷◌, arith, if-true,
  subst,
}
use genode_world.AnonMmap.Areas.{
  Range, Area, Memory, inside, commit_area, no_scan, visit, scan, release_part, divide,
}
use genode_world.AnonMmap.Areas.Crossing.{Proper, common, contained_crosses}
use genode_world.AnonMmap.Areas.Release.{within, any_within, Apart, Disjoint, visit_crossed}
use genode_world.AnonMmap.Areas.Exact.{release_part-within, untouched, cons_scan}

abbrev pub range : ℕ → ℕ → Range
range base size = record { base = base; size = size }

both_true : (a b : Bool) → a ≡ true → b ≡ true → (a && b) ≡ true
both_true a b e f = ground arith

abbrev area_of : Bool × Area → Area
area_of v = v.1

only_new : (a w : Bool) → (a && w) ≡ false → ((w || a) && not w) ≡ a
only_new a w e = ground arith

-- If a range inside the area, not empty, without wrapping and apart from the disjoint mapped
-- ranges, is committed with success and then released, the list of mapped ranges has the same
-- addresses as before.
pub commit_release :
    (mem : Memory) (base size : ℕ) (a : Area) (x : ℕ)
    → inside base size a ≡ true
    → mem.attaches base size a ≡ true
    → Proper (range base size)
    → Apart (range base size) a.mapped
    → Disjoint a.mapped
    → let b = (commit_area mem base size a).1 in
      any_within (release_part base size b).1.mapped x ≡ any_within a.mapped x
unfolding commit_area
commit_release mem base size a x within_area attached p new d =
    let r : Range = range base size in
    let b : Area = record a { ds = r ∷ a.ds; mapped = r ∷ a.mapped } in
    let taken : (inside base size a && mem.attaches base size a) ≡ true =
      both_true _ _ within_area attached in
    ap (λ c. any_within (release_part base size c).1.mapped x) (ap area_of (if-true _ _ _ taken))
    ∙ release_part-within r b x p (p, new, d)
    ∙ only_new (any_within a.mapped x) (within r x)
        (untouched r r p (omega arith) (omega arith) x a.mapped new d)

module _ (q r : Range) (a : Area) (pq : Proper q) (pr : Proper r) (alone : a.mapped ≡ r ∷ [])
    (low : r.base < q.base) (high : q.base + q.size < r.base + r.size) where
  unused : (divide (common q r) r no_scan).1.used ≡ false
  unfolding divide
  unused = ground (arith, low, high, pq.bounded, pr.bounded, pq.nonempty, pr.nonempty)

  said_unused : (release_part q.base q.size a).0 ≡ false
  unfolding release_part scan
  said_unused =
      ap (λ l. (scan q.base q.size l no_scan).1.used) alone
      ∙ ap (λ s. s.used)
          (cons_scan (visit q.base q.size r no_scan).0 ([], (visit q.base q.size r no_scan).1))
      ∙ ap (λ v. v.1.used) (visit_crossed q r no_scan (contained_crosses q r pq pr low high))
      ∙ unused

  -- If the only mapped range of an area has the released range in its middle, both not empty and
  -- without wrapping, the release says that the area is not in use, while the start of the range
  -- is still in the list of mapped ranges.
  pub hole_unused :
      ((release_part q.base q.size a).0 ≡ false)
      × (any_within (release_part q.base q.size a).1.mapped r.base ≡ true)
  hole_unused = (
    said_unused,
    release_part-within q a r.base pq (subst Disjoint (sym alone) (pr, tt, tt))
        ∙ ap (λ l. any_within l r.base && not (within q r.base)) alone
        ∙ ground (arith, low, pr.nonempty),
  )

-- Only the mapped ranges of the area change.
pub release_part-area :
    (base size : ℕ) (a : Area)
    → (release_part base size a).1 ≡ record a { mapped = (release_part base size a).1.mapped }
unfolding release_part
release_part-area base size a = refl
