-- ===== src/Iso9660/Record.antt =====
-- `Rock_ridge` and `Directory_record` of src/server/iso9660/iso9660.cc. Memory is a list of bytes,
-- and a pointer is a position in it.
pub mod Layout
pub mod Scan
pub mod Names
pub mod Locate
pub mod Total
pub mod Fields
pub mod Found
pub mod LongName
use genode_world.Prelude.{
  ℕ, zero, suc, ◌+◌, ◌-◌, ◌*◌, ◌/◌, ◌%◌, ◌^◌, ◌==◌, ltb, if◌then◌else◌, not, ◌&&◌, Bool, true,
  false, List, [], ◌∷◌, Option, none, some, u8, list_eq, length,
}
use genode_world.Iso9660.Run.{Run, done, beyond, unfinished, ◌>>=◌, byte, slice}

-- `value<uint16_t>` and `value<uint32_t>`, of a little-endian machine
abbrev pub value_16 : List ℕ → ℕ → Run ℕ
value_16 mem i = do a ← byte mem i; b ← byte mem (i + 1); done (a + 2 ^ 8 * b)

abbrev pub value_32 : List ℕ → ℕ → Run ℕ
value_32 mem i = do a ← value_16 mem i; b ← value_16 mem (i + 2); done (a + 2 ^ 16 * b)

abbrev pub nm_signature : ℕ
nm_signature = 0x4d4e

-- `Rock_ridge::scan_name`, from the entry at `rr`; `end` is `ptr + size`.
unfoldable pub scan_name : ℕ → List ℕ → ℕ → ℕ → Run (Option ℕ)
scan_name zero mem end rr = unfinished
scan_name (suc fuel) mem end rr = do
  len ← byte mem (rr + 2)
  elim (not (len == 0) && ltb (rr + 4) end) [
    | false ↦ done none
    | true ↦ value_16 mem rr >>= λ signature. elim (signature == nm_signature) [
      | true ↦ done (some rr)
      | false ↦ scan_name fuel mem end (rr + len)
    ]
  ]

abbrev pub table_length : ℕ
table_length = 33

unfoldable pub pad_byte : ℕ → ℕ
pad_byte name_length = if name_length % 2 == 0 then 1 else 0

unfoldable pub system_use : ℕ → ℕ → ℕ
system_use pos name_length = pos + table_length + name_length + pad_byte name_length

unfoldable pub system_use_size : ℕ → ℕ → ℕ
system_use_size record_length name_length =
    u8 (record_length + 2 ^ 9 - name_length - table_length - pad_byte name_length)

abbrev pub level_length : ℕ
level_length = 32

-- `memcpy (buf, mem + at, n); buf[n] = 0`, where `buf` is `name[LEVEL_LENGTH]` of `locate`.
unfoldable pub copy_name : List ℕ → ℕ → ℕ → Run (List ℕ)
copy_name mem at n = elim (ltb n level_length) [ true ↦ slice mem at n | false ↦ beyond ]

-- The name that the directory record has itself.
unfoldable pub iso_name : List ℕ → ℕ → ℕ → Run (List ℕ)
iso_name mem pos n = elim (n == 1) [
  | false ↦ copy_name mem (pos + 33) n
  | true ↦ byte mem (pos + 33) >>= λ c.
      if c == 1
      then done (b'.' ∷ b'.' ∷ [])
      else if c == 0
      then done (b'.' ∷ [])
      else copy_name mem (pos + 33) n
]

-- `rr->length ()` is `_length - 5` as a byte.
unfoldable pub name_of : List ℕ → ℕ → ℕ → Option ℕ → Run (List ℕ)
name_of mem pos n none = iso_name mem pos n
name_of mem pos n (some rr) = do
  len ← byte mem (rr + 2)
  copy_name mem (rr + 5) (u8 (len + 2 ^ 8 - 5))

-- `Directory_record::file_name`: what it stores before the terminating zero.
unfoldable pub file_name : List ℕ → ℕ → Run (List ℕ)
file_name mem pos = do
  n ← byte mem (pos + 32)
  len ← byte mem pos
  rr ← scan_name 256 mem (system_use pos n + system_use_size len n) (system_use pos n)
  name_of mem pos n rr

-- `Directory_record::next`
unfoldable pub next : List ℕ → ℕ → Run (Option ℕ)
next mem pos = do
  len ← byte mem pos
  following ← byte mem (pos + len)
  done (if following == 0 then none else some (pos + len))

-- A text up to its terminating zero.
unfoldable pub c_string : List ℕ → List ℕ
c_string [] = []
c_string (c ∷ cs) = let rest = c_string cs in if c == 0 then [] else c ∷ rest

abbrev pub follow : (ℕ → Run (Option ℕ)) → Option ℕ → Run (Option ℕ)
follow search none = done none
follow search (some pos) = search pos

-- `Directory_record::locate`, from the record at `pos`
unfoldable pub locate : ℕ → List ℕ → ℕ → List ℕ → Run (Option ℕ)
locate zero mem pos level = unfinished
locate (suc fuel) mem pos level = do
  name ← file_name mem pos
  elim (list_eq (c_string name) level) [
    | true ↦ done (some pos)
    | false ↦ next mem pos >>= λ following. follow (λ p. locate fuel mem p level) following
  ]

unfoldable pub blk_nr : List ℕ → ℕ → Run ℕ
blk_nr mem pos = value_32 mem (pos + 2)

unfoldable pub data_length : List ℕ → ℕ → Run ℕ
data_length mem pos = value_32 mem (pos + 10)

-- `file_flags () & DIR_FLAG`
unfoldable pub directory : List ℕ → ℕ → Run Bool
directory mem pos = do flags ← byte mem (pos + 25); done (flags / 2 % 2 == 1)
