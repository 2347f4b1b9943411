-- ===== src/Iso9660/Record/Total.antt =====
-- The loops of `scan_name` and `locate` end on whatever bytes a sector has.
use genode_world.Prelude.{
  ℕ, zero, suc, ◌+◌, ◌-◌, ◌^◌, ◌<◌, ◌≡◌, ◌≢◌, refl, sym, ap, ◌∙◌, true, false, List, [], ◌∷◌,
  Option, none, some, length, get_elem?, u8, arith, list_eq, inl, inr, Bool-cases, Option-cases,
}
use genode_world.Iso9660.Run.{Run, done, unfinished, ◌>>=◌, byte, slice, bind_ends, read_ends}
use genode_world.Iso9660.Record.{
  scan_name, copy_name, iso_name, name_of, file_name, next, locate, follow, c_string, system_use,
  system_use_size,
}

-- A position that is read lies within the memory.
get_elem?-lt : (xs : List ℕ) (i : ℕ) {b : ℕ} → get_elem? xs i ≡ some b → i < length xs
get_elem?-lt [] i e = cc
get_elem?-lt (x ∷ xs) zero e = omega arith
get_elem?-lt (x ∷ xs) (suc i) e = omega (arith, get_elem?-lt xs i e)

scan_name_ends :
    (fuel : ℕ) (mem : List ℕ) (end rr : ℕ)
    → end < rr + fuel
    → 0 < fuel
    → scan_name fuel mem end rr ≢ unfinished
unfolding scan_name
scan_name_ends zero mem end rr h k = absurd (omega arith)
scan_name_ends (suc fuel) mem end rr h k = elim (Option-cases (get_elem? mem (rr + 2))) [
  | inl e ↦ ground (arith, e)
  | inr (len, e) ↦ ground (arith, e, scan_name_ends fuel mem end (rr + len))
]

copy_name_ends : (mem : List ℕ) (at n : ℕ) → copy_name mem at n ≢ unfinished
unfolding copy_name slice
copy_name_ends mem at n = ground arith

name_of_ends : (mem : List ℕ) (pos n : ℕ) (rr : Option ℕ) → name_of mem pos n rr ≢ unfinished
unfolding name_of iso_name
name_of_ends mem pos n none = ground (arith, copy_name_ends mem (pos + 33) n)
name_of_ends mem pos n (some rr) =
    bind_ends (byte mem (rr + 2)) (λ len. copy_name mem (rr + 5) (u8 (len + 2 ^ 8 - 5)))
      (read_ends _) (λ len h. copy_name_ends mem (rr + 5) (u8 (len + 2 ^ 8 - 5)))

-- The size of the system use area is a byte, which the fuel exceeds.
size_fits : (pos len n : ℕ) → system_use pos n + system_use_size len n < system_use pos n + 256
unfolding system_use_size
size_fits pos len n = omega arith

abbrev name_with : List ℕ → ℕ → ℕ → ℕ → Run (List ℕ)
name_with mem pos n len =
    scan_name 256 mem (system_use pos n + system_use_size len n) (system_use pos n) >>= λ rr.
    name_of mem pos n rr

name_with_ends : (mem : List ℕ) (pos n len : ℕ) → name_with mem pos n len ≢ unfinished
name_with_ends mem pos n len =
    bind_ends (scan_name 256 mem (system_use pos n + system_use_size len n) (system_use pos n))
      (λ rr. name_of mem pos n rr)
      (scan_name_ends 256 mem _ (system_use pos n) (size_fits pos len n) (omega arith))
      (λ rr h. name_of_ends mem pos n rr)

file_name_ends : (mem : List ℕ) (pos : ℕ) → file_name mem pos ≢ unfinished
unfolding file_name
file_name_ends mem pos =
    bind_ends (byte mem (pos + 32)) (λ n. byte mem pos >>= λ len. name_with mem pos n len)
      (read_ends _)
      (λ n h.
        bind_ends (byte mem pos) (λ len. name_with mem pos n len) (read_ends _)
          (λ len h'. name_with_ends mem pos n len))

-- A record of length zero is its own successor.
same-zero :
    (mem : List ℕ) (pos : ℕ) {len following : ℕ}
    → get_elem? mem pos ≡ some len
    → get_elem? mem (pos + len) ≡ some following
    → len ≡ 0
    → following ≡ 0
same-zero mem pos {len} e e' z =
    let here : pos + len ≡ pos = omega arith in
    let both = sym e' ∙ ap (get_elem? mem) here ∙ e in ground (arith, both)

-- The position of the next record grows, and stays within the memory.
next-grows :
    (mem : List ℕ) (pos p : ℕ) → next mem pos ≡ done (some p) → (pos < p) × (p < length mem)
unfolding next
next-grows mem pos p h = elim (Option-cases (get_elem? mem pos)) [
  | inl e ↦ ground (arith, e)
  | inr (len, e) ↦ elim (Option-cases (get_elem? mem (pos + len))) [
    | inl e' ↦ ground (arith, e, e')
    | inr (following, e') ↦
        ground (arith, e, e', get_elem?-lt mem (pos + len) e', same-zero mem pos e e')
  ]
]

next_ends : (mem : List ℕ) (pos : ℕ) → next mem pos ≢ unfinished
unfolding next
next_ends mem pos = ground (arith, Option-cases (get_elem? mem pos))

-- The search in the records behind the one at `pos`.
abbrev search_on : ℕ → List ℕ → ℕ → List ℕ → Run (Option ℕ)
search_on fuel mem pos level =
    next mem pos >>= λ following. follow (λ p. locate fuel mem p level) following

abbrev compare_name : ℕ → List ℕ → ℕ → List ℕ → List ℕ → Run (Option ℕ)
compare_name fuel mem pos level name = elim (list_eq (c_string name) level) [
  | true ↦ done (some pos)
  | false ↦ search_on fuel mem pos level
]

follow_ends :
    (search : ℕ → Run (Option ℕ)) (following : Option ℕ)
    → ((p : ℕ) → following ≡ some p → search p ≢ unfinished)
    → follow search following ≢ unfinished
follow_ends search none h = λ e. cc
follow_ends search (some p) h = h p refl

pub locate_ends :
    (fuel : ℕ) (mem : List ℕ) (pos : ℕ) (level : List ℕ)
    → length mem < pos + fuel
    → 0 < fuel
    → locate fuel mem pos level ≢ unfinished
unfolding locate
locate_ends zero mem pos level h k = absurd (omega arith)
locate_ends (suc fuel) mem pos level h k =
    let on : search_on fuel mem pos level ≢ unfinished =
      bind_ends (next mem pos) (λ following. follow (λ p. locate fuel mem p level) following)
        (next_ends mem pos)
        (λ following e.
          follow_ends (λ p. locate fuel mem p level) following
            (λ p e'.
              let g = next-grows mem pos p (e ∙ ap done e') in
              locate_ends fuel mem p level (omega arith) (omega arith))) in
    bind_ends (file_name mem pos) (λ name. compare_name fuel mem pos level name)
      (file_name_ends mem pos)
      (λ name e. elim (Bool-cases (list_eq (c_string name) level)) [
        | inl y ↦ rw (y, compare_name) (λ h. cc)
        | inr n ↦ rw (n, compare_name) on
      ])
