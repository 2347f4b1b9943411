-- ===== src/NicBus/Bus/Slots.antt =====
-- Lemmas on slots that are written and read.
use genode_world.Prelude.{
  ℕ, zero, suc, ◌≡◌, ◌≢◌, refl, ap, List, [], ◌∷◌, some, get_elem?, set, length, ◌<◌, ◌≤◌, none,
  arith,
}

module _ {ℓ} {A : Type ℓ} where
  pub get-set :
      (xs : List A) (i : ℕ) (v w : A) → get_elem? xs i ≡ some w → get_elem? (set xs i v) i ≡ some v
  get-set [] i v w h = absurd (cc)
  get-set (x ∷ xs) zero v w h = refl
  get-set (x ∷ xs) (suc i) v w h = get-set xs i v w h

  pub get-set_other :
      (xs : List A) (i j : ℕ) (v : A) → i ≢ j → get_elem? (set xs i v) j ≡ get_elem? xs j
  get-set_other [] i j v h = refl
  get-set_other (x ∷ xs) zero zero v h = absurd (h refl)
  get-set_other (x ∷ xs) zero (suc j) v h = refl
  get-set_other (x ∷ xs) (suc i) zero v h = refl
  get-set_other (x ∷ xs) (suc i) (suc j) v h = get-set_other xs i j v (λ e. h (ap suc e))

  -- Writing back what stood there.
  pub set-set :
      (xs : List A) (i : ℕ) (v w : A) → get_elem? xs i ≡ some w → set (set xs i v) i w ≡ xs
  set-set [] i v w h = refl
  set-set (x ∷ xs) zero v w h = cc
  set-set (x ∷ xs) (suc i) v w h = ap (λ l. x ∷ l) (set-set xs i v w h)

  pub get_elem?_lt : (xs : List A) (i : ℕ) (w : A) → get_elem? xs i ≡ some w → i < length xs
  get_elem?_lt [] i w h = absurd (cc)
  get_elem?_lt (x ∷ xs) zero w h = omega arith
  get_elem?_lt (x ∷ xs) (suc i) w h = let l = get_elem?_lt xs i w h in omega arith

  pub get_elem?-none : (xs : List A) (i : ℕ) → get_elem? xs i ≡ none → length xs ≤ i
  get_elem?-none [] i h = omega arith
  get_elem?-none (x ∷ xs) zero h = absurd (cc)
  get_elem?-none (x ∷ xs) (suc i) h = let l = get_elem?-none xs i h in omega arith
