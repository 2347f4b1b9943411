-- ===== src/AnonMmap/Areas/Release.antt =====
-- What one round of a partial release leaves mapped.
use genode_world.Prelude.{
  ℕ, ◌+◌, ◌≤◌, ◌≡◌, ◌⊎◌, sym, ap, ◌∙◌, Bool, true, false, ◌&&◌, ◌||◌, not, List, [], ◌∷◌, Option,
  none, some, arith, ltb, leb, if-true, if-false, Bool-cases, inl, inr,
}
use genode_world.AnonMmap.Areas.{
  Range, Scan, visit, visit_result, divide, has_front, has_back, rest_behind,
}
use genode_world.AnonMmap.Areas.Crossing.{
  Proper, crosses, common, crossing_lem, overlap, apart, common_lem,
}

-- Whether an address is in a range, and in one of several.
abbrev pub within : Range → ℕ → Bool
within r x = leb r.base x && ltb x (r.base + r.size)

abbrev pub any_within : List Range → ℕ → Bool
any_within [] x = false
any_within (r ∷ rs) x = within r x || any_within rs x

abbrev pub kept_within : Option Range → ℕ → Bool
kept_within none x = false
kept_within (some r) x = within r x

-- The second part of a range that is divided, which is added at the end.
abbrev pub chunk_within : Scan → ℕ → Bool
chunk_within s x = s.need_new_chunk && within (rest_behind s) x

-- Ranges that do not overlap.
abbrev pub Apart : Range → List Range → Type 0
Apart r [] = Unit
Apart r (s ∷ ss) = ((r.base + r.size ≤ s.base) ⊎ (s.base + s.size ≤ r.base)) × Apart r ss

abbrev pub Disjoint : List Range → Type 0
Disjoint [] = Unit
Disjoint (r ∷ rs) = Proper r × Apart r rs × Disjoint rs

module _ (q r : Range) (s : Scan) where
  pub visit_apart :
      crosses q r ≡ false → visit q.base q.size r s ≡ (some r, record s { used = true })
  unfolding visit visit_result
  visit_apart e = ap (visit_result r s) (crossing_lem q r ∙ if-false _ _ _ e)

  pub visit_crossed : crosses q r ≡ true → visit q.base q.size r s ≡ divide (common q r) r s
  unfolding visit visit_result
  visit_crossed e = ap (visit_result r s) (crossing_lem q r ∙ if-true _ _ _ e)

abbrev pub need_of : Option Range × Scan → Bool
need_of v = v.1.need_new_chunk

-- Whether an address stays mapped behind one round.
abbrev pub stays : Option Range × Scan → ℕ → Bool
stays v x = kept_within v.0 x || chunk_within v.1 x

module _ (q r : Range) (s : Scan) (pq : Proper q) (pr : Proper r) (fresh : s.need_new_chunk ≡ false)
    (overlaps : crosses q r ≡ true) (x : ℕ) where
  abbrev c : Range
  c = common q r

  divide_exact : stays (divide c r s) x ≡ (within r x && not (within q x))
  unfolding divide
  divide_exact =
      let both = overlap q r pq pr overlaps in
      let end = common_lem q r pq pr overlaps in
      elim (Bool-cases (has_front c r)) [
        | inl before ↦ elim (Bool-cases (has_back c r)) [
          | inl behind ↦
              ap (λ v. stays v x) (if-true _ _ _ before ∙ if-true _ _ _ behind)
              ∙ ground (
                arith, before, behind, both, pq.bounded, pr.bounded, pq.nonempty, pr.nonempty,
                fresh,
              )
          | inr no_back ↦
              ap (λ v. stays v x) (if-true _ _ _ before ∙ if-false _ _ _ no_back)
              ∙ ground (
                arith, before, no_back, both, pq.bounded, pr.bounded, pq.nonempty, pr.nonempty,
                fresh,
              )
        ]
        | inr no_front ↦ elim (Bool-cases (has_back c r)) [
          | inl behind ↦
              ap (λ v. stays v x) (if-false _ _ _ no_front ∙ if-true _ _ _ behind)
              ∙ ground (
                arith, no_front, behind, both, pq.bounded, pr.bounded, pq.nonempty, pr.nonempty,
                fresh,
              )
          | inr no_back ↦
              ap (λ v. stays v x) (if-false _ _ _ no_front ∙ if-false _ _ _ no_back)
              ∙ ground (
                arith, no_front, no_back, both, pq.bounded, pr.bounded, pq.nonempty, pr.nonempty,
                fresh,
              )
        ]
      ]

module _ (q r : Range) (s : Scan) (pq : Proper q) (pr : Proper r)
    (fresh : s.need_new_chunk ≡ false) where
  pub visit_exact : (x : ℕ) → stays (visit q.base q.size r s) x ≡ (within r x && not (within q x))
  visit_exact x = elim (Bool-cases (crosses q r)) [
    | inl overlaps ↦
        ap (λ v. stays v x) (visit_crossed q r s overlaps)
        ∙ divide_exact q r s pq pr fresh overlaps x
    | inr distinct ↦
        let sides = apart q r pq pr distinct in
        ap (λ v. stays v x) (visit_apart q r s distinct) ∙ ground (arith, fresh)
  ]

  -- Only a range that has the query in its middle needs a new chunk.
  divide_need :
      crosses q r ≡ true
      → (divide (common q r) r s).1.need_new_chunk ≡ true
      → (r.base ≤ q.base) × (q.base + q.size ≤ r.base + r.size)
  unfolding divide
  divide_need overlaps h =
      let both = overlap q r pq pr overlaps in
      ground (arith, fresh, both, pq.bounded, pr.bounded, pq.nonempty, pr.nonempty)

  pub visit_need :
      (visit q.base q.size r s).1.need_new_chunk ≡ true
      → (r.base ≤ q.base) × (q.base + q.size ≤ r.base + r.size)
  visit_need h = elim (Bool-cases (crosses q r)) [
    | inl overlaps ↦ divide_need overlaps (sym (ap need_of (visit_crossed q r s overlaps)) ∙ h)
    | inr distinct ↦ absurd (ground (arith, fresh, ap need_of (visit_apart q r s distinct), h))
  ]
