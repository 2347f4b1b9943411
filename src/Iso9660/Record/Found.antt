-- ===== src/Iso9660/Record/Found.antt =====
-- The record that `locate` finds, and its fields.
use genode_world.Prelude.{
  ℕ, ◌+◌, ◌/◌, ◌%◌, ◌^◌, ◌≤◌, ◌<◌, ◌≡◌, refl, sym, subst, ◌∙◌, if-true, if-false, ◌==◌,
  if◌then◌else◌, List, [], ◌∷◌, Option, none, some, length, drop, arith, list_eq, inl, inr,
  Bool-cases,
}
use genode_world.Iso9660.Run.{done, byte}
use genode_world.Iso9660.Record.{c_string, blk_nr, data_length, directory}
use genode_world.Iso9660.Record.Layout.{
  Entry, encode, encode_all, entry_length, entry_name, AllFit, find_entry,
}
use genode_world.Iso9660.Record.Scan.{byte-at}
use genode_world.Iso9660.Record.Names.{next-at}

-- The first entry with the name.
abbrev pub lookup_entry : List ℕ → List Entry → Option Entry
lookup_entry level [] = none
lookup_entry level (e ∷ es) =
    if list_eq (c_string (entry_name e)) level then some e else lookup_entry level es

-- The entry stands at the position where it is found.
pub find_entry-at :
    (mem level : List ℕ) (pos : ℕ) (es : List Entry) (rest : List ℕ) (e : Entry)
    → drop pos mem ≡ encode_all es (0 ∷ rest)
    → AllFit es
    → 2 ≤ length rest
    → lookup_entry level es ≡ some e
    → (p : ℕ) × (behind : List ℕ) × (find_entry level pos es ≡ some p)
      × (drop p mem ≡ encode e behind)
find_entry-at mem level pos [] rest e at fit more h = cc
find_entry-at mem level pos (d ∷ es) rest e at fit more h =
    let tail : List ℕ = encode_all es (0 ∷ rest) in
    elim (Bool-cases (list_eq (c_string (entry_name d)) level)) [
      | inl y ↦
          let first : some d ≡ some e = sym (if-true _ _ _ y) ∙ h in
          let same : d ≡ e = cc in
          (pos, tail, if-true _ _ _ y, subst (λ x. drop pos mem ≡ encode x tail) same at)
      | inr n ↦
          let behind : drop (pos + entry_length d) mem ≡ tail = next-at mem pos d tail at in
          let later : lookup_entry level es ≡ some e = sym (if-false _ _ _ n) ∙ h in
          let r =
            find_entry-at mem level (pos + entry_length d) es rest e behind fit.1 more later in
          (r.0, r.1, if-false _ _ _ n ∙ r.2, r.3)
    ]

pub find_entry-none :
    (level : List ℕ) (pos : ℕ) (es : List Entry)
    → lookup_entry level es ≡ none
    → find_entry level pos es ≡ none
find_entry-none level pos [] h = refl
find_entry-none level pos (d ∷ es) h =
    ground (arith, find_entry-none level (pos + entry_length d) es)

module _ (mem : List ℕ) (pos : ℕ) (e : Entry) (rest : List ℕ)
    (at : drop pos mem ≡ encode e rest) where
  pub blk_nr-entry : e.extent < 2 ^ 32 → blk_nr mem pos ≡ done e.extent
  unfolding blk_nr
  blk_nr-entry small =
      let a : byte mem (pos + 2) ≡ done (e.extent % 256) = byte-at pos 2 mem _ at refl in
      let b : byte mem (pos + 3) ≡ done (e.extent / 2 ^ 8 % 256) = byte-at pos 3 mem _ at refl in
      let c : byte mem (pos + 4) ≡ done (e.extent / 2 ^ 16 % 256) = byte-at pos 4 mem _ at refl in
      let d : byte mem (pos + 5) ≡ done (e.extent / 2 ^ 24 % 256) = byte-at pos 5 mem _ at refl in
      ground (arith, a, b, c, d)

  pub data_length-entry : e.size < 2 ^ 32 → data_length mem pos ≡ done e.size
  unfolding data_length
  data_length-entry small =
      let a : byte mem (pos + 10) ≡ done (e.size % 256) = byte-at pos 10 mem _ at refl in
      let b : byte mem (pos + 11) ≡ done (e.size / 2 ^ 8 % 256) = byte-at pos 11 mem _ at refl in
      let c : byte mem (pos + 12) ≡ done (e.size / 2 ^ 16 % 256) = byte-at pos 12 mem _ at refl in
      let d : byte mem (pos + 13) ≡ done (e.size / 2 ^ 24 % 256) = byte-at pos 13 mem _ at refl in
      ground (arith, a, b, c, d)

  pub directory-entry : directory mem pos ≡ done (e.flags / 2 % 2 == 1)
  unfolding directory
  directory-entry =
      let flags : byte mem (pos + 25) ≡ done e.flags = byte-at pos 25 mem _ at refl in rw flags refl
