-- ===== src/RomVerify/Requests/Views.antt =====
-- The sessions by their IDs.
use genode_world.Prelude.{
  ℕ, ◌≡◌, sym, ap, ◌∙◌, ◌==◌, if◌then◌else◌, false, List, [], ◌∷◌, Option, none, some, arith, inl,
  inr, Bool-cases, if-true, if-false,
}
use genode_world.RomVerify.Requests.{Session, find_session, remove_session}

-- No ID is taken twice.
abbrev pub Unique : List Session → Type 0
Unique [] = Unit
Unique (s ∷ ss) = (find_session s.id ss ≡ none) × Unique ss

-- The content that an ID serves.
abbrev pub rom_of : Option Session → Option (List ℕ)
rom_of none = none
rom_of (some s) = some s.rom

abbrev pub view : List Session → ℕ → Option (List ℕ)
view ss id = rom_of (find_session id ss)

pub find_session-remove_session :
    (i j : ℕ) (ss : List Session)
    → Unique ss
    → find_session j (remove_session i ss) ≡ (if i == j then none else find_session j ss)
unfolding find_session remove_session
find_session-remove_session i j [] u = ground arith
find_session-remove_session i j (s ∷ ss) u = elim (Bool-cases (s.id == i)) [
  | inl y ↦
      let same : s.id ≡ i = ground arith in
      let gone : i ≡ j → find_session j ss ≡ none =
        λ e. ap (λ k. find_session k ss) (sym (same ∙ e)) ∙ u.0 in
      ap (find_session j) (if-true _ _ _ y) ∙ elim (Bool-cases (i == j)) [
        | inl e ↦ gone (ground arith) ∙ sym (if-true _ _ _ e)
        | inr n ↦
            let other : (s.id == j) ≡ false = ground arith in
            sym (if-false _ _ _ n ∙ if-false _ _ _ other)
      ]
  | inr n ↦
      ap (find_session j) (if-false _ _ _ n)
      ∙ ground (arith, find_session-remove_session i j ss u.1)
]

pub remove_session-Unique : (i : ℕ) (ss : List Session) → Unique ss → Unique (remove_session i ss)
unfolding remove_session
remove_session-Unique i [] u = tt
remove_session-Unique i (s ∷ ss) u = elim (Bool-cases (s.id == i)) [
  | inl y ↦ rw y u.1
  | inr n ↦ rw n (
    ground (arith, find_session-remove_session i s.id ss u.1, u.0),
    remove_session-Unique i ss u.1,
  )
]
