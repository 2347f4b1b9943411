-- ===== src/AnonMmap/Areas/Exact.antt =====
-- What a partial release leaves mapped.
use genode_world.Prelude.{
  ℕ, ◌+◌, ◌≤◌, ◌≡◌, ◌⊎◌, refl, ap, ◌∙◌, Bool, true, false, ◌&&◌, ◌||◌, not, List, [], ◌∷◌, Option,
  none, some, arith, Bool-cases, inl, inr, if◌then◌else◌,
}
use genode_world.AnonMmap.Areas.{
  Range, Area, Scan, no_scan, visit, scan, rest_behind, release_part, cons_kept,
}
use genode_world.AnonMmap.Areas.Crossing.{Proper, apart_crosses}
use genode_world.AnonMmap.Areas.Release.{
  within, any_within, kept_within, chunk_within, Apart, Disjoint, need_of, visit_exact, visit_need,
  visit_apart,
}

any_cons :
    (o : Option Range) (w : List Range × Scan) (x : ℕ)
    → any_within (cons_kept o w).0 x ≡ (kept_within o x || any_within w.0 x)
any_cons none w x = refl
any_cons (some k) w x = refl

pub cons_scan : (o : Option Range) (w : List Range × Scan) → (cons_kept o w).1 ≡ w.1
cons_scan none w = refl
cons_scan (some k) w = refl

-- The Boolean laws of the two cases.
join_exact :
    (k c wr wq a ch ar : Bool)
    → (k || c) ≡ (wr && not wq)
    → c ≡ false
    → (a || ch) ≡ (ar && not wq)
    → ((k || a) || ch) ≡ ((wr || ar) && not wq)
join_exact k c wr wq a ch ar e f g = ground arith

join_split :
    (k c wr wq a ch ar : Bool)
    → (k || c) ≡ (wr && not wq)
    → a ≡ ar
    → ch ≡ c
    → (ar && wq) ≡ false
    → ((k || a) || ch) ≡ ((wr || ar) && not wq)
join_split k c wr wq a ch ar e f g h = ground arith

-- Behind the range that has the query in its middle nothing more changes.
module _ (q r : Range) (pq : Proper q) (low : r.base ≤ q.base)
    (high : q.base + q.size ≤ r.base + r.size) (x : ℕ) where
  scan-Apart :
      (rs : List Range) (s : Scan)
      → Apart r rs
      → Disjoint rs
      → ((scan q.base q.size rs s).0 ≡ rs)
        × (chunk_within (scan q.base q.size rs s).1 x ≡ chunk_within s x)
  unfolding scan
  scan-Apart [] s a d = (refl, refl)
  scan-Apart (t ∷ rs) s a d =
      let sides : (q.base + q.size ≤ t.base) ⊎ (t.base + t.size ≤ q.base) = omega (arith, a.0) in
      let e = visit_apart q t s (apart_crosses q t pq d.0 sides) in
      let rest = scan-Apart rs (record s { used = true }) a.1 d.2 in
      rw e (ap (λ l. t ∷ l) rest.0, rest.1)

  pub untouched :
      (rs : List Range) → Apart r rs → Disjoint rs → (any_within rs x && within q x) ≡ false
  untouched [] a d = refl
  untouched (t ∷ rs) a d = ground (arith, untouched rs a.1 d.2, a.0)

-- The search with its new chunk leaves exactly the addresses outside the query.
scan_exact :
    (q : Range) (x : ℕ) (rs : List Range) (s : Scan)
    → Proper q
    → Disjoint rs
    → s.need_new_chunk ≡ false
    → let w = scan q.base q.size rs s in
      (any_within w.0 x || chunk_within w.1 x) ≡ (any_within rs x && not (within q x))
unfolding scan
scan_exact q x [] s pq d fresh = ground (arith, fresh)
scan_exact q x (r ∷ rs) s pq d fresh =
    let v = visit q.base q.size r s in
    let w = scan q.base q.size rs v.1 in
    let one = visit_exact q r s pq d.0 fresh x in
    let shape =
      ap (λ b. b || chunk_within (cons_kept v.0 w).1 x) (any_cons v.0 w x)
      ∙ ap (λ u. (kept_within v.0 x || any_within w.0 x) || chunk_within u x) (cons_scan v.0 w) in
    elim (Bool-cases (need_of v)) [
      | inr single ↦
          let none_left : chunk_within v.1 x ≡ false = ground (arith, single) in
          shape ∙ join_exact _ _ _ _ _ _ _ one none_left (scan_exact q x rs v.1 pq d.2 single)
      | inl split ↦
          let middle = visit_need q r s pq d.0 fresh split in
          let later = scan-Apart q r pq middle.0 middle.1 x rs v.1 d.1 d.2 in
          shape
          ∙ join_split _ _ _ _ _ _ _ one (ap (λ l. any_within l x) later.0) later.1
              (untouched q r pq middle.0 middle.1 x rs d.1 d.2)
    ]

with_chunk :
    (b : Bool) (r : Range) (l : List Range) (x : ℕ)
    → any_within (if b then r ∷ l else l) x ≡ (any_within l x || (b && within r x))
with_chunk true r l x = ground arith
with_chunk false r l x = ground arith

-- The addresses that are kept as mapped.
pub release_part-within :
    (q : Range) (a : Area) (x : ℕ)
    → Proper q
    → Disjoint a.mapped
    → any_within (release_part q.base q.size a).1.mapped x
      ≡ (any_within a.mapped x && not (within q x))
unfolding release_part
release_part-within q a x pq d =
    let w : List Range × Scan = scan q.base q.size a.mapped no_scan in
    with_chunk w.1.need_new_chunk (rest_behind w.1) w.0 x
    ∙ scan_exact q x a.mapped no_scan pq d refl

-- If the ranges that an area keeps as mapped are disjoint, not empty and do not wrap, and neither
-- does the released range, then after a partial release the list of mapped ranges has exactly the
-- addresses that it had and that are not in the released range, while the list of attached
-- dataspaces is the one before: nothing is detached.
pub release_part_exact :
    (q : Range) (a : Area) (x : ℕ)
    → Proper q
    → Disjoint a.mapped
    → (any_within (release_part q.base q.size a).1.mapped x
        ≡ (any_within a.mapped x && not (within q x)))
      × ((release_part q.base q.size a).1.ds ≡ a.ds)
unfolding release_part
release_part_exact q a x pq d = (release_part-within q a x pq d, refl)
