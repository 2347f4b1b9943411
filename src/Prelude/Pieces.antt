-- ===== src/Prelude/Pieces.antt =====
-- Parts of a list that is made of two lists.
use Prim.Native.Nat.{ℕ, zero, suc, ◌+◌, ◌≤◌}
use mathlib.Core.Path.{◌≡◌, refl, ap}
use mathlib.Core.List.{List, [], ◌∷◌, ◌++◌}
use native.Mathlib.Omega.{arith}
use genode_world.Prelude.Lists.{length, take, drop}

pub take-append_le :
    {A : Type 0} (n : ℕ) (xs ys : List A) → n ≤ length xs → take n (xs ++ ys) ≡ take n xs
take-append_le zero xs ys h = refl
take-append_le (suc n) [] ys h = absurd (omega arith)
take-append_le (suc n) (x ∷ xs) ys h = ap (λ t. x ∷ t) (take-append_le n xs ys (omega arith))

pub drop-append_le :
    {A : Type 0} (n : ℕ) (xs ys : List A) → n ≤ length xs → drop n (xs ++ ys) ≡ drop n xs ++ ys
drop-append_le zero xs ys h = refl
drop-append_le (suc n) [] ys h = absurd (omega arith)
drop-append_le (suc n) (x ∷ xs) ys h = drop-append_le n xs ys (omega arith)

pub take-append_behind :
    {A : Type 0} (k : ℕ) (xs ys : List A) {n : ℕ}
    → length xs + k ≡ n
    → take n (xs ++ ys) ≡ xs ++ take k ys
take-append_behind k [] ys e = let e' : _ ≡ k = omega arith in ap (λ j. take j ys) e'
take-append_behind k (x ∷ xs) ys {n = zero} e = absurd (omega arith)
take-append_behind k (x ∷ xs) ys {n = suc n} e =
    ap (λ t. x ∷ t) (take-append_behind k xs ys {n = n} (omega arith))

pub drop-append_behind :
    {A : Type 0} (k : ℕ) (xs ys : List A) {n : ℕ}
    → length xs + k ≡ n
    → drop n (xs ++ ys) ≡ drop k ys
drop-append_behind k [] ys e = let e' : _ ≡ k = omega arith in ap (λ j. drop j ys) e'
drop-append_behind k (x ∷ xs) ys {n = zero} e = absurd (omega arith)
drop-append_behind k (x ∷ xs) ys {n = suc n} e = drop-append_behind k xs ys {n = n} (omega arith)

pub append-take-drop : {A : Type 0} (n : ℕ) (xs : List A) → take n xs ++ drop n xs ≡ xs
append-take-drop zero xs = refl
append-take-drop (suc n) [] = refl
append-take-drop (suc n) (x ∷ xs) = ap (λ t. x ∷ t) (append-take-drop n xs)
