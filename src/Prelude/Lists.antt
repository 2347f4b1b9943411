-- ===== src/Prelude/Lists.antt =====
-- Lists measured and indexed by native numbers, and memory as a list of bytes.
use Prim.Native.Nat.{ℕ, zero, suc, ◌+◌, ◌-◌, ◌≤◌, ◌<◌, min}
use mathlib.Core.Path.{◌≡◌, refl, sym, ap}
use mathlib.Core.Bool.{Bool, true, false, ◌&&◌}
use mathlib.Core.List.{List, [], ◌∷◌, ◌++◌}
use mathlib.Core.Option.{Option, none, some}
use native.Mathlib.Omega.{arith}
use genode_world.Prelude.Tests.{◌==◌}

module _ {ℓ} {A : Type ℓ} where
  abbrev pub length : List A → ℕ
  length [] = 0
  length (x ∷ xs) = suc (length xs)

  abbrev pub get_elem? : List A → ℕ → Option A
  get_elem? [] i = none
  get_elem? (x ∷ xs) zero = some x
  get_elem? (x ∷ xs) (suc i) = get_elem? xs i

  -- A write out of bounds changes nothing.
  abbrev pub set : List A → ℕ → A → List A
  set [] i v = []
  set (x ∷ xs) zero v = v ∷ xs
  set (x ∷ xs) (suc i) v = x ∷ set xs i v

  abbrev pub take : ℕ → List A → List A
  take zero xs = []
  take (suc n) [] = []
  take (suc n) (x ∷ xs) = x ∷ take n xs

  abbrev pub drop : ℕ → List A → List A
  drop zero xs = xs
  drop (suc n) [] = []
  drop (suc n) (x ∷ xs) = drop n xs

  abbrev pub replicate : ℕ → A → List A
  replicate zero a = []
  replicate (suc n) a = a ∷ replicate n a

  -- `memcpy (mem + i, bytes)`: bytes beyond the end of the memory are dropped.
  unfoldable pub overwrite : List A → ℕ → List A → List A
  overwrite [] i ys = []
  overwrite (x ∷ xs) (suc i) ys = x ∷ overwrite xs i ys
  overwrite (x ∷ xs) zero [] = x ∷ xs
  overwrite (x ∷ xs) zero (y ∷ ys) = y ∷ overwrite xs zero ys

  pub length-append : (xs ys : List A) → length (xs ++ ys) ≡ length xs + length ys
  length-append [] ys = omega arith
  length-append (x ∷ xs) ys = omega (arith, length-append xs ys)

  pub length-take : (n : ℕ) (xs : List A) → length (take n xs) ≡ min n (length xs)
  length-take zero xs = omega arith
  length-take (suc n) [] = omega arith
  length-take (suc n) (x ∷ xs) = omega (arith, length-take n xs)

  pub length-drop : (n : ℕ) (xs : List A) → length (drop n xs) ≡ length xs - n
  length-drop zero xs = omega arith
  length-drop (suc n) [] = omega arith
  length-drop (suc n) (x ∷ xs) = omega (arith, length-drop n xs)

  pub length-replicate : (n : ℕ) (a : A) → length (replicate n a) ≡ n
  length-replicate zero a = refl
  length-replicate (suc n) a = ap suc (length-replicate n a)

  pub length-set : (xs : List A) (i : ℕ) (v : A) → length (set xs i v) ≡ length xs
  length-set [] i v = refl
  length-set (x ∷ xs) zero v = refl
  length-set (x ∷ xs) (suc i) v = ap suc (length-set xs i v)

  pub take-length_le : (n : ℕ) (xs : List A) → length xs ≤ n → take n xs ≡ xs
  take-length_le zero [] h = refl
  take-length_le zero (x ∷ xs) h = absurd (omega arith)
  take-length_le (suc n) [] h = refl
  take-length_le (suc n) (x ∷ xs) h = ap (λ t. x ∷ t) (take-length_le n xs (omega arith))

  pub take-append_length : (xs ys : List A) → take (length xs) (xs ++ ys) ≡ xs
  take-append_length [] ys = refl
  take-append_length (x ∷ xs) ys = ap (λ t. x ∷ t) (take-append_length xs ys)

  pub take-add :
      (m n : ℕ) (xs : List A) {k : ℕ} → m + n ≡ k → take k xs ≡ take m xs ++ take n (drop m xs)
  take-add zero n xs {k = k} e = let e' : k ≡ n = omega arith in ap (λ j. take j xs) e'
  take-add (suc m) n [] {k = zero} e = absurd (omega arith)
  take-add (suc m) zero [] {k = suc k} e = refl
  take-add (suc m) (suc n) [] {k = suc k} e = refl
  take-add (suc m) n (x ∷ xs) {k = zero} e = absurd (omega arith)
  take-add (suc m) n (x ∷ xs) {k = suc k} e =
      ap (λ t. x ∷ t) (take-add m n xs {k = k} (omega arith))

  pub take-take_le : (m n : ℕ) (xs : List A) → m ≤ n → take m (take n xs) ≡ take m xs
  take-take_le zero n xs h = refl
  take-take_le (suc m) zero xs h = absurd (omega arith)
  take-take_le (suc m) (suc n) [] h = refl
  take-take_le (suc m) (suc n) (x ∷ xs) h = ap (λ t. x ∷ t) (take-take_le m n xs (omega arith))

  pub length-overwrite :
      (xs : List A) (i : ℕ) (ys : List A) → length (overwrite xs i ys) ≡ length xs
  unfolding overwrite
  length-overwrite [] i ys = refl
  length-overwrite (x ∷ xs) (suc i) ys = ap suc (length-overwrite xs i ys)
  length-overwrite (x ∷ xs) zero [] = refl
  length-overwrite (x ∷ xs) zero (y ∷ ys) = ap suc (length-overwrite xs zero ys)

  -- What lies before the written bytes stays, and they follow it.
  pub take-overwrite :
      (xs : List A) (i : ℕ) (ys : List A) {k : ℕ}
      → i + length ys ≡ k
      → k ≤ length xs
      → take k (overwrite xs i ys) ≡ take i xs ++ ys
  unfolding overwrite
  take-overwrite [] zero [] {k = zero} e h = refl
  take-overwrite [] zero [] {k = suc k} e h = absurd (omega arith)
  take-overwrite [] zero (y ∷ ys) e h = absurd (omega arith)
  take-overwrite [] (suc i) ys e h = absurd (omega arith)
  take-overwrite (x ∷ xs) (suc i) ys {k = zero} e h = absurd (omega arith)
  take-overwrite (x ∷ xs) (suc i) ys {k = suc k} e h =
      ap (λ t. x ∷ t) (take-overwrite xs i ys {k = k} (omega arith) (omega arith))
  take-overwrite (x ∷ xs) zero [] {k = zero} e h = refl
  take-overwrite (x ∷ xs) zero [] {k = suc k} e h = absurd (omega arith)
  take-overwrite (x ∷ xs) zero (y ∷ ys) {k = zero} e h = absurd (omega arith)
  take-overwrite (x ∷ xs) zero (y ∷ ys) {k = suc k} e h =
      ap (λ t. y ∷ t) (take-overwrite xs zero ys {k = k} (omega arith) (omega arith))

-- `strcmp (a, b) == 0`, for texts without their terminating zero.
unfoldable pub list_eq : List ℕ → List ℕ → Bool
list_eq [] [] = true
list_eq [] (y ∷ ys) = false
list_eq (x ∷ xs) [] = false
list_eq (x ∷ xs) (y ∷ ys) = x == y && list_eq xs ys

pub list_eq_refl : (xs : List ℕ) → list_eq xs xs ≡ true
unfolding list_eq
list_eq_refl [] = refl
list_eq_refl (x ∷ xs) = ground (arith, list_eq_refl xs)

pub list_eq_sound : (xs ys : List ℕ) → list_eq xs ys ≡ true → xs ≡ ys
unfolding list_eq
list_eq_sound [] [] h = refl
list_eq_sound [] (y ∷ ys) h = cc
list_eq_sound (x ∷ xs) [] h = cc
list_eq_sound (x ∷ xs) (y ∷ ys) h = ground (arith, list_eq_sound xs ys)

module _ {ℓ} {A : Type ℓ} where
  -- What lies within the first `k` elements is read from those.
  pub take-drop-take :
      (size offset k : ℕ) (xs : List A)
      → offset + size ≤ k
      → take size (drop offset (take k xs)) ≡ take size (drop offset xs)
  take-drop-take size zero k xs h = take-take_le size k xs (omega arith)
  take-drop-take size (suc o) zero xs h = absurd (omega arith)
  take-drop-take size (suc o) (suc k) [] h = refl
  take-drop-take size (suc o) (suc k) (x ∷ xs) h = take-drop-take size o k xs (omega arith)

  pub get_elem?-drop :
      (p k : ℕ) (xs : List A) {m : ℕ} → p + k ≡ m → get_elem? xs m ≡ get_elem? (drop p xs) k
  get_elem?-drop zero k xs e = let e' : k ≡ _ = omega arith in ap (get_elem? xs) (sym e')
  get_elem?-drop (suc p) k [] e = refl
  get_elem?-drop (suc p) k (x ∷ xs) {m = zero} e = absurd (omega arith)
  get_elem?-drop (suc p) k (x ∷ xs) {m = suc m} e = get_elem?-drop p k xs {m = m} (omega arith)

  pub drop-drop : (p k : ℕ) (xs : List A) {m : ℕ} → p + k ≡ m → drop m xs ≡ drop k (drop p xs)
  drop-drop zero k xs e = let e' : k ≡ _ = omega arith in ap (λ j. drop j xs) (sym e')
  drop-drop (suc p) zero [] {m = zero} e = absurd (omega arith)
  drop-drop (suc p) zero [] {m = suc m} e = refl
  drop-drop (suc p) (suc k) [] {m = zero} e = refl
  drop-drop (suc p) (suc k) [] {m = suc m} e = refl
  drop-drop (suc p) k (x ∷ xs) {m = zero} e = absurd (omega arith)
  drop-drop (suc p) k (x ∷ xs) {m = suc m} e = drop-drop p k xs {m = m} (omega arith)

  pub drop-append_length : (xs ys : List A) → drop (length xs) (xs ++ ys) ≡ ys
  drop-append_length [] ys = refl
  drop-append_length (x ∷ xs) ys = drop-append_length xs ys

  -- What lies before the written bytes stays, also where they do not fit.
  pub take-overwrite_le :
      (k : ℕ) (xs : List A) (i : ℕ) (ys : List A) → k ≤ i → take k (overwrite xs i ys) ≡ take k xs
  unfolding overwrite
  take-overwrite_le zero xs i ys h = refl
  take-overwrite_le (suc k) xs zero ys h = absurd (omega arith)
  take-overwrite_le (suc k) [] (suc i) ys h = refl
  take-overwrite_le (suc k) (x ∷ xs) (suc i) ys h =
      ap (λ t. x ∷ t) (take-overwrite_le k xs i ys (omega arith))

  pub get_elem?-overwrite_behind :
      (xs : List A) (i : ℕ) (ys : List A) (j : ℕ)
      → i + length ys ≤ j
      → get_elem? (overwrite xs i ys) j ≡ get_elem? xs j
  unfolding overwrite
  get_elem?-overwrite_behind [] i ys j h = refl
  get_elem?-overwrite_behind (x ∷ xs) (suc i) ys zero h = absurd (omega arith)
  get_elem?-overwrite_behind (x ∷ xs) (suc i) ys (suc j) h =
      get_elem?-overwrite_behind xs i ys j (omega arith)
  get_elem?-overwrite_behind (x ∷ xs) zero [] j h = refl
  get_elem?-overwrite_behind (x ∷ xs) zero (y ∷ ys) zero h = absurd (omega arith)
  get_elem?-overwrite_behind (x ∷ xs) zero (y ∷ ys) (suc j) h =
      get_elem?-overwrite_behind xs zero ys j (omega arith)

  -- A value that is overwritten by itself stays.
  pub get_elem?-overwrite-replicate :
      (xs : List A) (i n : ℕ) (a : A) (j : ℕ)
      → get_elem? xs j ≡ some a
      → get_elem? (overwrite xs i (replicate n a)) j ≡ some a
  unfolding overwrite
  get_elem?-overwrite-replicate [] i n a j h = h
  get_elem?-overwrite-replicate (x ∷ xs) (suc i) n a zero h = h
  get_elem?-overwrite-replicate (x ∷ xs) (suc i) n a (suc j) h =
      get_elem?-overwrite-replicate xs i n a j h
  get_elem?-overwrite-replicate (x ∷ xs) zero zero a j h = h
  get_elem?-overwrite-replicate (x ∷ xs) zero (suc n) a zero h = refl
  get_elem?-overwrite-replicate (x ∷ xs) zero (suc n) a (suc j) h =
      get_elem?-overwrite-replicate xs zero n a j h

  pub get_elem?-replicate : (n i : ℕ) (a : A) → i < n → get_elem? (replicate n a) i ≡ some a
  get_elem?-replicate zero i a h = absurd (omega arith)
  get_elem?-replicate (suc n) zero a h = refl
  get_elem?-replicate (suc n) (suc i) a h = get_elem?-replicate n i a (omega arith)
