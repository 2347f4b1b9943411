-- ===== src/NicBus/Bus.antt =====
-- The sessions on the bus: `Bus` of src/server/nic_bus/bus.h.
pub mod Slots
pub mod Insert
pub mod Sequence
use Prim.Native.Nat.{bit_xor}
use genode_world.Prelude.{
  ℕ, zero, suc, ◌+◌, ◌-◌, ◌/◌, ◌%◌, ◌^◌, ◌==◌, ◌&&◌, Bool, List, [], ◌∷◌, Option, none, some,
  length, get_elem?, set, ltb, if◌then◌else◌, mul_size, u8,
}

pub record Mac : Type 0 where
  pub addr_0 : ℕ
  pub addr_1 : ℕ
  pub addr_2 : ℕ
  pub addr_3 : ℕ
  pub addr_4 : ℕ
  pub addr_5 : ℕ

abbrev pub mac_eq : Mac → Mac → Bool
mac_eq a b =
    a.addr_0 == b.addr_0
    && a.addr_1 == b.addr_1
    && a.addr_2 == b.addr_2
    && a.addr_3 == b.addr_3
    && a.addr_4 == b.addr_4
    && a.addr_5 == b.addr_5

-- A session is named by a number in place of a reference.
pub record Element : Type 0 where
  pub obj : ℕ
  pub mac : Mac

abbrev pub Elements : Type 0
Elements = List (Option Element)

abbrev pub bus_size : ℕ
bus_size = 255

abbrev pub index : Mac → ℕ
index mac = mac.addr_1

-- The constants are `enum` values; the products wrap at 2^64.
abbrev pub fnv_64_prime : ℕ
fnv_64_prime = 1099511628211

abbrev pub fnv_64_offset : ℕ
fnv_64_offset = 14695981039346656037

-- A `char` is signed: a byte from 128 on fills the upper bits.
abbrev pub char_value : ℕ → ℕ
char_value b = if ltb b 128 then b else b + (2 ^ 64 - 256)

abbrev pub next_hash : ℕ → ℕ
next_hash hash = mul_size hash fnv_64_prime

-- `while (*p)`, up to the terminating zero, which is the end of the list at the latest.
unfoldable pub label_hash : ℕ → List ℕ → ℕ
label_hash hash [] = hash
label_hash hash (b ∷ bs) =
    let rest = label_hash (next_hash (bit_xor hash (char_value b))) bs in
    if b == 0 then hash else rest

abbrev pub slot_of : ℕ → ℕ
slot_of hash = u8 (hash / 2 ^ 32)

abbrev pub mac_of : ℕ → Mac
mac_of hash = record {
  addr_0 = 0x02;
  addr_1 = slot_of hash;
  addr_2 = u8 (hash / 2 ^ 24);
  addr_3 = u8 (hash / 2 ^ 16);
  addr_4 = u8 (hash / 2 ^ 8);
  addr_5 = u8 hash;
}

-- `beyond` is a read at an index that the array does not have, `unfinished` is a loop that needs
-- more rounds.
pub data Placed : Type 0 where
  placed : Elements → Mac → Placed
  beyond : ℕ → Placed
  unfinished : Placed

-- `for (;;)`, with at most `fuel` rounds.
pub probe : ℕ → ℕ → ℕ → Elements → Placed
probe zero hash obj es = unfinished
probe (suc fuel) hash obj es = elim (get_elem? es (slot_of (next_hash hash))) [
  | none ↦ beyond (slot_of (next_hash hash))
  | some (some e) ↦ probe fuel (next_hash hash) obj es
  | some none ↦
      placed
        (set es (slot_of (next_hash hash))
          (some (record { obj = obj; mac = mac_of (next_hash hash) })))
        (mac_of (next_hash hash))
]

-- `Bus::insert`, with the initialization of `Element::mac` by its result.
unfoldable pub insert : ℕ → List ℕ → ℕ → Elements → Placed
unfolding probe label_hash
insert fuel label obj es = probe fuel (label_hash fnv_64_offset label) obj es

-- `Bus::remove`, or none for a write beyond the array.
unfoldable pub remove : Mac → Elements → Option Elements
remove mac es = if ltb (index mac) (length es) then some (set es (index mac) none) else none

-- What `Bus::apply` finds: a session to call, none, or a read at an index that the array does not
-- have.
pub data Found : Type 0 where
  found : ℕ → Found
  absent : Found
  overruns : ℕ → Found

abbrev pub matching : Mac → Option (Option Element) → Found
matching mac none = overruns (index mac)
matching mac (some none) = absent
matching mac (some (some e)) = if mac_eq e.mac mac then found e.obj else absent

unfoldable pub find : Mac → Elements → Found
find mac es = matching mac (get_elem? es (index mac))
