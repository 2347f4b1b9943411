-- ===== src/Iso9660/Record/Layout.antt =====
-- The directory records of a disc as the standards ECMA 119 and IEEE P1282 lay them out in bytes: an
-- independent description of what `Directory_record` and `Rock_ridge` read.
use genode_world.Prelude.{
  ℕ, ◌+◌, ◌*◌, ◌/◌, ◌%◌, ◌^◌, ◌<◌, ◌==◌, if◌then◌else◌, List, [], ◌∷◌, ◌++◌, Option, none, some,
  length, list_eq, Bool,
}
use genode_world.Iso9660.Record.{c_string}

-- An entry of the system use area: two signature characters, and what follows length and version.
pub record Field : Type 0 where
  pub first : ℕ
  pub second : ℕ
  pub flags : ℕ
  pub payload : List ℕ

abbrev pub encode_fields : List Field → List ℕ → List ℕ
encode_fields [] rest = rest
encode_fields (f ∷ fs) rest =
    f.first ∷ f.second ∷ (length f.payload + 5) ∷ 1 ∷ f.flags ∷ (f.payload ++ encode_fields fs rest)

abbrev pub fields_size : List Field → ℕ
fields_size [] = 0
fields_size (f ∷ fs) = length f.payload + 5 + fields_size fs

abbrev pub is_nm : Field → Bool
is_nm f = f.first + 2 ^ 8 * f.second == 0x4d4e

-- The payload of the first entry `NM` is the POSIX name.
abbrev pub posix_name : List Field → Option (List ℕ)
posix_name [] = none
posix_name (f ∷ fs) = if is_nm f then some f.payload else posix_name fs

pub record Entry : Type 0 where
  pub name : List ℕ
  pub extent : ℕ
  pub size : ℕ
  pub flags : ℕ
  pub fields : List Field

abbrev pub pad : ℕ → ℕ
pad n = if n % 2 == 0 then 1 else 0

abbrev pub padding : ℕ → List ℕ → List ℕ
padding n rest = if n % 2 == 0 then 0 ∷ rest else rest

abbrev pub entry_length : Entry → ℕ
entry_length e = 33 + length e.name + pad (length e.name) + fields_size e.fields

-- The four bytes of a number, the lowest first, and in front of `rest`.
abbrev pub little : ℕ → List ℕ → List ℕ
little n rest = (n % 256) ∷ (n / 2 ^ 8 % 256) ∷ (n / 2 ^ 16 % 256) ∷ (n / 2 ^ 24 % 256) ∷ rest

abbrev pub big : ℕ → List ℕ → List ℕ
big n rest = (n / 2 ^ 24 % 256) ∷ (n / 2 ^ 16 % 256) ∷ (n / 2 ^ 8 % 256) ∷ (n % 256) ∷ rest

-- Behind the name stand the padding and the system use area. The recording date, the volume number
-- and the interleaving are zero.
abbrev pub tail : Entry → List ℕ → List ℕ
tail e rest = e.name ++ padding (length e.name) (encode_fields e.fields rest)

abbrev pub encode : Entry → List ℕ → List ℕ
encode e rest =
    entry_length e
    ∷ 0
    ∷ little e.extent (
        big e.extent (
          little e.size (
            big e.size (
              0
              ∷ 0
              ∷ 0
              ∷ 0
              ∷ 0
              ∷ 0
              ∷ 0
              ∷ e.flags
              ∷ 0
              ∷ 0
              ∷ 0
              ∷ 0
              ∷ 0
              ∷ 0
              ∷ length e.name
              ∷ tail e rest))))

abbrev pub encode_all : List Entry → List ℕ → List ℕ
encode_all [] rest = rest
encode_all (e ∷ es) rest = encode e (encode_all es rest)

-- The names of the directory itself and of its parent are single bytes.
abbrev pub own_name : List ℕ → List ℕ
own_name (c ∷ []) = if c == 1 then b'.' ∷ b'.' ∷ [] else if c == 0 then b'.' ∷ [] else c ∷ []
own_name cs = cs

abbrev pub name_from : Option (List ℕ) → List ℕ → List ℕ
name_from none own = own_name own
name_from (some posix) own = posix

abbrev pub entry_name : Entry → List ℕ
entry_name e = name_from (posix_name e.fields) e.name

-- A record has a length of one byte, and its name fits into the buffer of `locate`.
pub record Fits (e : Entry) : Type 0 where
  pub short : entry_length e < 256
  pub own_short : length e.name < 32
  pub name_short : length (entry_name e) < 32

abbrev pub AllFit : List Entry → Type 0
AllFit [] = Unit
AllFit (e ∷ es) = Fits e × AllFit es

-- The position of the first record with the name, from the position of the first record on.
abbrev pub find_entry : List ℕ → ℕ → List Entry → Option ℕ
find_entry level pos [] = none
find_entry level pos (e ∷ es) =
    if list_eq (c_string (entry_name e)) level
    then some pos
    else find_entry level (pos + entry_length e) es
