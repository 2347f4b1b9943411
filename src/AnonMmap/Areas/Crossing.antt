-- ===== src/AnonMmap/Areas/Crossing.antt =====
-- What ranges have in common, and how one is divided.
use genode_world.Prelude.{
  ℕ, ◌+◌, ◌≤◌, ◌<◌, ◌^◌, ◌≡◌, ◌↔◌, refl, sym, Bool, true, false, ◌==◌, ◌&&◌, Option, none, some,
  min, max, arith, ltb, Bool-cases, inl, inr, add_size, sub_size, if◌then◌else◌, ◌⊎◌, subst,
}
use genode_world.AnonMmap.Areas.{Range, crossing}

abbrev pub Within : Range → ℕ → Type 0
Within r x = (r.base ≤ x) × (x < r.base + r.size)

-- A range that has addresses and does not wrap.
pub record Proper (r : Range) : Type 0 where
  pub nonempty : 0 < r.size
  pub bounded : r.base + r.size < 2 ^ 64

-- What a result of `crossing` says of an address.
abbrev pub Meets : Range → Range → ℕ → Option Range → Type 0
Meets q r x none = Within r x → Within q x → ⊥
Meets q r x (some c) = Within c x ↔ (Within r x × Within q x)

abbrev pub common : Range → Range → Range
common q r = record {
  base = max q.base r.base;
  size = sub_size (min (add_size q.base q.size) (add_size r.base r.size)) (max q.base r.base);
}

pub crosses : Range → Range → Bool
crosses q r =
    ltb r.base (add_size q.base (if q.size == 0 then 1 else q.size))
    && ltb q.base (add_size r.base r.size)

pub crossing_lem :
    (q r : Range) → crossing q.base q.size r ≡ (if crosses q r then some (common q r) else none)
unfolding crossing crosses
crossing_lem q r = refl

module _ (q r : Range) (pq : Proper q) (pr : Proper r) where
  pub overlap : crosses q r ≡ true → (r.base < q.base + q.size) × (q.base < r.base + r.size)
  unfolding crosses
  overlap h = ground (arith, pq.nonempty, pq.bounded, pr.bounded)

  pub apart : crosses q r ≡ false → (q.base + q.size ≤ r.base) ⊎ (r.base + r.size ≤ q.base)
  unfolding crosses
  apart h = ground (arith, pq.nonempty, pq.bounded, pr.bounded)

  pub common_lem :
      crosses q r ≡ true
      → (common q r).base + (common q r).size ≡ min (q.base + q.size) (r.base + r.size)
  common_lem h = omega (arith, overlap h, pq.bounded, pr.bounded, pq.nonempty, pr.nonempty)

  meets : (x : ℕ) → Meets q r x (if crosses q r then some (common q r) else none)
  meets x = elim (Bool-cases (crosses q r)) [
    | inl overlaps ↦
        let end = common_lem overlaps in
        rw overlaps (λ w. (omega arith, omega arith), λ w. (omega arith, omega arith))
    | inr distinct ↦ let sides = apart distinct in rw distinct (λ w v. omega arith)
  ]

-- For two ranges that are not empty and do not wrap, `get_crossing_range` yields exactly the
-- addresses that they have in common, or nothing if there are none.
pub crossing-Meets :
    (q r : Range) (x : ℕ) → Proper q → Proper r → Meets q r x (crossing q.base q.size r)
crossing-Meets q r x pq pr = subst (Meets q r x) (sym (crossing_lem q r)) (meets q r pq pr x)

pub apart_crosses :
    (q s : Range)
    → Proper q
    → Proper s
    → (q.base + q.size ≤ s.base) ⊎ (s.base + s.size ≤ q.base)
    → crosses q s ≡ false
unfolding crosses
apart_crosses q s pq ps sides = ground (arith, pq.bounded, ps.bounded, pq.nonempty, ps.nonempty)

pub contained_crosses :
    (q r : Range)
    → Proper q
    → Proper r
    → r.base < q.base
    → q.base + q.size < r.base + r.size
    → crosses q r ≡ true
unfolding crosses
contained_crosses q r pq pr low high =
    ground (arith, pq.bounded, pr.bounded, pq.nonempty, pr.nonempty)
