-- ===== src/Iso9660/Record/Names.antt =====
-- `file_name` and `next` on a record that is laid out by the standards.
use genode_world.Prelude.{
  ℕ, ◌+◌, ◌-◌, ◌^◌, ◌≤◌, ◌<◌, ◌≡◌, refl, sym, ap, ◌∙◌, List, [], ◌∷◌, ◌++◌, some, length, drop,
  take, drop-drop, drop-append_length, take-append_length, length-drop, length-append, arith, u8,
}
use genode_world.Iso9660.Run.{done, byte, slice}
use genode_world.Iso9660.Record.{
  scan_name, file_name, iso_name, name_of, copy_name, pad_byte, system_use, system_use_size,
}
use genode_world.Iso9660.Record.Layout.{
  Field, Entry, encode, encode_fields, fields_size, entry_length, entry_name, own_name, posix_name,
  name_from, Fits, pad, padding, tail,
}
use genode_world.Iso9660.Record.Scan.{
  byte-at, byte-here, nm_position, skip_field, scan_name-encode_fields,
}

-- `memcpy` of a text that stands in memory.
copy_name-at :
    (mem : List ℕ) (at n : ℕ) (name rest : List ℕ)
    → drop at mem ≡ name ++ rest
    → length name ≡ n
    → n < 32
    → at ≤ length mem
    → copy_name mem at n ≡ done name
unfolding copy_name slice
copy_name-at mem at n name rest e len short h =
    let size : length mem - at ≡ length name + length rest =
      sym (length-drop at mem) ∙ ap length e ∙ length-append name rest in
    let taken : take n (drop at mem) ≡ name =
      ap (λ t. take n t) e
      ∙ ap (λ k. take k (name ++ rest)) (sym len)
      ∙ take-append_length name rest in
    ground (arith, taken)

-- Within the memory, since a byte follows.
le-length : (p : ℕ) (mem : List ℕ) (x : ℕ) (xs : List ℕ) → drop p mem ≡ x ∷ xs → p ≤ length mem
le-length p mem x xs e = omega (arith, length-drop p mem, ap length e)

-- The name of an entry `NM`.
name_of-payload :
    (mem : List ℕ) (pos n rr : ℕ) (f : Field) (fs : List Field) (rest : List ℕ)
    → drop rr mem ≡ encode_fields (f ∷ fs) rest
    → length f.payload < 32
    → name_of mem pos n (some rr) ≡ done f.payload
unfolding name_of
name_of-payload mem pos n rr f fs rest e short =
    let len : byte mem (rr + 2) ≡ done (length f.payload + 5) = byte-at rr 2 mem _ e refl in
    let payload : drop (rr + 5) mem ≡ f.payload ++ encode_fields fs rest =
      drop-drop rr 5 mem refl ∙ ap (drop 5) e in
    let inside : rr + 5 ≤ length mem =
      omega
        (arith, length-drop rr mem, ap length e, length-append f.payload (encode_fields fs rest)) in
    rw len (
      copy_name-at mem (rr + 5) (u8 (length f.payload + 5 + 2 ^ 8 - 5)) f.payload
        (encode_fields fs rest) payload (omega arith) (omega arith) inside)

-- The name that is stored for the first entry `NM`.
pub name_of-position :
    (mem : List ℕ) (pos n rr : ℕ) (fs : List Field) (rest own : List ℕ)
    → drop rr mem ≡ encode_fields fs rest
    → length (name_from (posix_name fs) own) < 32
    → iso_name mem pos n ≡ done (own_name own)
    → name_of mem pos n (nm_position rr fs) ≡ done (name_from (posix_name fs) own)
name_of-position mem pos n rr [] rest own e short h = unfold name_of in h
name_of-position mem pos n rr (f ∷ fs) rest own e short h =
    let following : drop (rr + (length f.payload + 5)) mem ≡ encode_fields fs rest =
      drop-drop rr (length f.payload + 5) mem refl
      ∙ ap (drop (length f.payload + 5)) e
      ∙ skip_field f fs rest in
    ground (
      arith,
      name_of-payload mem pos n rr f fs rest e,
      name_of-position mem pos n (rr + (length f.payload + 5)) fs rest own following,
    )

-- The name of the record itself.
iso_name-own :
    (mem : List ℕ) (pos : ℕ) (name rest : List ℕ)
    → drop (pos + 33) mem ≡ name ++ rest
    → pos + 33 ≤ length mem
    → length name < 32
    → iso_name mem pos (length name) ≡ done (own_name name)
unfolding iso_name
iso_name-own mem pos [] rest e h short =
    copy_name-at mem (pos + 33) 0 [] rest e refl (omega arith) h
iso_name-own mem pos (c ∷ []) rest e h short =
    let first : byte mem (pos + 33) ≡ done c = byte-here (pos + 33) mem _ e refl in
    ground (arith, first, copy_name-at mem (pos + 33) 1 (c ∷ []) rest e refl (omega arith) h)
iso_name-own mem pos (c ∷ d ∷ cs) rest e h short =
    ground
      (arith, copy_name-at mem (pos + 33) (length (c ∷ d ∷ cs)) (c ∷ d ∷ cs) rest e refl short h)

drop-fields :
    (fs : List Field) (rest : List ℕ) → drop (fields_size fs) (encode_fields fs rest) ≡ rest
drop-fields [] rest = refl
drop-fields (f ∷ fs) rest =
    drop-drop (length f.payload + 5) (fields_size fs) (encode_fields (f ∷ fs) rest) refl
    ∙ ap (drop (fields_size fs)) (skip_field f fs rest)
    ∙ drop-fields fs rest

drop-padding : (n : ℕ) (rest : List ℕ) → drop (pad n) (padding n rest) ≡ rest
drop-padding n rest = ground arith

module _ (mem : List ℕ) (pos : ℕ) (e : Entry) (rest : List ℕ)
    (at : drop pos mem ≡ encode e rest) where
  pub name-length : byte mem (pos + 32) ≡ done (length e.name)
  name-length = byte-at pos 32 mem _ at refl

  pub record-length : byte mem pos ≡ done (entry_length e)
  record-length = byte-here pos mem _ at refl

  behind_table : drop (pos + 33) mem ≡ tail e rest
  behind_table = drop-drop pos 33 mem refl ∙ ap (drop 33) at

  within : pos + 33 ≤ length mem
  within = omega (arith, length-drop pos mem, ap length at)

  pub fields_at : drop (system_use pos (length e.name)) mem ≡ encode_fields e.fields rest
  unfolding system_use pad_byte
  fields_at =
      drop-drop (pos + 33 + length e.name) (pad (length e.name)) mem refl
      ∙ ap (drop (pad (length e.name))) (
          drop-drop (pos + 33) (length e.name) mem refl
          ∙ ap (drop (length e.name)) behind_table
          ∙ drop-append_length e.name _)
      ∙ drop-padding (length e.name) (encode_fields e.fields rest)

  -- The record behind it.
  pub next-at : drop (pos + entry_length e) mem ≡ rest
  unfolding system_use pad_byte
  next-at =
      drop-drop (pos + 33 + length e.name + pad (length e.name)) (fields_size e.fields) mem
        (omega arith)
      ∙ ap (drop (fields_size e.fields)) fields_at
      ∙ drop-fields e.fields rest

  module _ (short : entry_length e < 256) (more : 3 ≤ length rest) where
    use_size : system_use_size (entry_length e) (length e.name) ≡ fields_size e.fields
    unfolding system_use_size pad_byte
    use_size = ground arith

    -- What is made of the entries of the system use area.
    pub file_name-fields :
        file_name mem pos
        ≡ name_of mem pos (length e.name) (nm_position (system_use pos (length e.name)) e.fields)
    unfolding file_name
    file_name-fields =
        let start : ℕ = system_use pos (length e.name) in
        let end : ℕ = start + system_use_size (entry_length e) (length e.name) in
        let scan : scan_name 256 mem end start ≡ done (nm_position start e.fields) =
          scan_name-encode_fields 256 mem end start e.fields rest fields_at
            (omega (arith, use_size)) more (omega arith) in
        rw name-length (rw record-length (rw scan refl))

  pub file_name-entry : Fits e → 3 ≤ length rest → file_name mem pos ≡ done (entry_name e)
  file_name-entry fit more =
      file_name-fields fit.short more
      ∙ name_of-position mem pos (length e.name) (system_use pos (length e.name)) e.fields rest
          e.name fields_at fit.name_short
          (iso_name-own mem pos e.name _ behind_table within fit.own_short)
