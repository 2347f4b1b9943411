-- ===== src/Iso9660/Record/LongName.antt =====
-- A name that the buffer of `locate` cannot hold.
use genode_world.Prelude.{
  ℕ, zero, suc, ◌+◌, ◌-◌, ◌^◌, ◌≤◌, ◌<◌, ◌≡◌, refl, sym, ap, ◌∙◌, List, [], ◌∷◌, none, some, length,
  drop, drop-drop, arith, inl, inr, Bool-cases, if-true, if-false, u8,
}
use genode_world.Iso9660.Run.{done, beyond, byte}
use genode_world.Iso9660.Record.{locate, file_name, name_of, copy_name, system_use}
use genode_world.Iso9660.Record.Layout.{
  Field, Entry, encode, encode_all, encode_fields, entry_length, is_nm, posix_name, AllFit,
  fields_size, find_entry,
}
use genode_world.Iso9660.Record.Scan.{byte-at, nm_position, skip_field}
use genode_world.Iso9660.Record.Names.{fields_at, file_name-fields, file_name-entry, next-at}
use genode_world.Iso9660.Record.Locate.{next-some}

copy_name-long : (mem : List ℕ) (at n : ℕ) → 32 ≤ n → copy_name mem at n ≡ beyond
unfolding copy_name
copy_name-long mem at n h = ground arith

name_of-long :
    (mem : List ℕ) (pos n rr : ℕ) (fs : List Field) (rest posix : List ℕ)
    → drop rr mem ≡ encode_fields fs rest
    → fields_size fs < 256
    → posix_name fs ≡ some posix
    → 32 ≤ length posix
    → name_of mem pos n (nm_position rr fs) ≡ beyond
unfolding name_of
name_of-long mem pos n rr [] rest posix at small h long = cc
name_of-long mem pos n rr (f ∷ fs) rest posix at small h long =
    let len : byte mem (rr + 2) ≡ done (length f.payload + 5) = byte-at rr 2 mem _ at refl in
    let following : drop (rr + (length f.payload + 5)) mem ≡ encode_fields fs rest =
      drop-drop rr (length f.payload + 5) mem refl
      ∙ ap (drop (length f.payload + 5)) at
      ∙ skip_field f fs rest in
    elim (Bool-cases (is_nm f)) [
      | inl y ↦
          let first : some f.payload ≡ some posix = sym (if-true _ _ _ y) ∙ h in
          let same : f.payload ≡ posix = cc in
          let size : length f.payload ≡ length posix = ap length same in
          ap (name_of mem pos n) (if-true _ _ _ y)
          ∙ rw len
              (copy_name-long mem (rr + 5) (u8 (length f.payload + 5 + 2 ^ 8 - 5)) (omega arith))
      | inr k ↦
          ap (name_of mem pos n) (if-false _ _ _ k)
          ∙ name_of-long mem pos n (rr + (length f.payload + 5)) fs rest posix following
              (omega arith) (sym (if-false _ _ _ k) ∙ h) long
    ]

-- A record whose POSIX name has 32 characters or more.
pub record LongName (e : Entry) : Type 0 where
  pub short : entry_length e < 256
  pub posix : List ℕ
  pub named : posix_name e.fields ≡ some posix
  pub long : 32 ≤ length posix

file_name-long :
    (mem : List ℕ) (pos : ℕ) (e : Entry) (rest : List ℕ)
    → drop pos mem ≡ encode e rest
    → LongName e
    → 3 ≤ length rest
    → file_name mem pos ≡ beyond
file_name-long mem pos e rest at l more =
    let short = l.short in
    file_name-fields mem pos e rest at short more
    ∙ name_of-long mem pos (length e.name) (system_use pos (length e.name)) e.fields rest l.posix
        (fields_at mem pos e rest at) (omega arith) l.named l.long

-- If a record with a POSIX name of 32 characters or more stands behind records, laid out by the
-- standards, that do not have the name that is looked for, `locate` writes beyond its buffer.
pub locate-LongName :
    (fuel : ℕ) (mem : List ℕ) (pos : ℕ) (level : List ℕ) (before : List Entry) (e : Entry)
    (rest : List ℕ)
    → drop pos mem ≡ encode_all before (encode e rest)
    → AllFit before
    → find_entry level pos before ≡ none
    → LongName e
    → 3 ≤ length rest
    → length before < fuel
    → locate fuel mem pos level ≡ beyond
unfolding locate
locate-LongName zero mem pos level before e rest at fit absent l more h = absurd (omega arith)
locate-LongName (suc fuel) mem pos level [] e rest at fit absent l more h =
    rw (file_name-long mem pos e rest at l more) refl
locate-LongName (suc fuel) mem pos level (d ∷ []) e rest at fit absent l more h =
    let name = file_name-entry mem pos d (encode e rest) at fit.0 (omega arith) in
    let behind = next-at mem pos d (encode e rest) at in
    ground (
      arith,
      name,
      next-some mem pos d e rest at fit.0,
      locate-LongName fuel mem (pos + entry_length d) level [] e rest behind fit.1 refl l more,
    )
locate-LongName (suc fuel) mem pos level (d ∷ c ∷ before) e rest at fit absent l more h =
    let tail : List ℕ = encode_all before (encode e rest) in
    let name = file_name-entry mem pos d (encode c tail) at fit.0 (omega arith) in
    let behind = next-at mem pos d (encode c tail) at in
    ground (
      arith,
      name,
      next-some mem pos d c tail at fit.0,
      locate-LongName fuel mem (pos + entry_length d) level (c ∷ before) e rest behind fit.1,
    )
