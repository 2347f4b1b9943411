-- ===== src/NicBus/Tests.antt =====
-- The theorems about the NIC bus at concrete labels and packets.
use genode_world.Prelude.{
  ℕ, ◌≡◌, ◌≢◌, refl, sym, ◌∙◌, zero, suc, true, List, [], ◌∷◌, ◌++◌, Option, none, some, arith,
  replicate, get_elem?, set, ◌⊎◌, inl, inr, ap,
}
use genode_world.NicBus.Bus.{
  Mac, mac_eq, Element, Elements, placed, beyond, insert, remove, find, found, slot_of, index,
  next_hash, label_hash, fnv_64_offset,
}
use genode_world.NicBus.Bus.Insert.{
  WellFormed, insert-find, insert_keeps, insert-WellFormed, insert_full,
}
use genode_world.NicBus.Bus.Sequence.{hash_after, insert_takes_first, insert_beyond}
use genode_world.NicBus.Session.{Packet, Stream, Bus, done, handle_packet}
use genode_world.NicBus.Session.Deliver.{OnRun, Handled, Beyond, handle_packet-Handled}
use genode_world.NicBus.Session.Addressed.{
  copies, Open, NotNamed, unicast_private, multicast_reaches,
}

abbrev empty : Elements
empty = replicate 255 none

-- The labels `a` and `vm -> 500`.
abbrev label_a : List ℕ
label_a = 97 ∷ []

abbrev label_vm : List ℕ
label_vm = 118 ∷ 109 ∷ 32 ∷ 45 ∷ 62 ∷ 32 ∷ 53 ∷ 48 ∷ 48 ∷ []

slot_255 : slot_of (next_hash (label_hash fnv_64_offset label_vm)) ≡ 255
unfolding label_hash
slot_255 = refl

insert_beyond_at_sample : insert 1 label_vm 3 empty ≡ beyond 255
insert_beyond_at_sample = insert_beyond 0 3 label_vm empty refl slot_255

abbrev mac_a : Mac
mac_a = record { addr_0 = 2; addr_1 = 7; addr_2 = 181; addr_3 = 68; addr_4 = 241; addr_5 = 228 }

abbrev one : Elements
one = set empty 7 (some (record { obj = 5; mac = mac_a }))

placed_a : insert 1 label_a 5 empty ≡ placed one mac_a
unfolding insert
placed_a = refl

insert_takes_first_at_sample : insert 1 label_a 5 empty ≡ placed one mac_a
unfolding hash_after label_hash
insert_takes_first_at_sample =
    insert_takes_first 0 1 5 label_a empty (omega arith) (λ j lt. absurd (omega arith)) refl

insert-find_example : (find mac_a one ≡ found 5) × (remove mac_a one ≡ some empty)
insert-find_example = insert-find 1 label_a 5 empty one mac_a placed_a

replicate-none :
    (n i : ℕ) (e : Element)
    → ◌≢◌ {A = Option (Option Element)} (get_elem? (replicate n none) i) (some (some e))
replicate-none zero i e h = cc
replicate-none (suc n) zero e h = cc
replicate-none (suc n) (suc i) e h = replicate-none n i e h

none_taken : (i : ℕ) (e : Element) → get_elem? empty i ≡ some (some e) → index e.mac ≡ i
none_taken i e h = absurd (replicate-none 255 i e h)

empty-WellFormed : WellFormed empty
empty-WellFormed = record { size = refl; keyed = none_taken }

insert-WellFormed_at_sample : WellFormed one
insert-WellFormed_at_sample =
    insert-WellFormed 1 label_a 5 empty one mac_a empty-WellFormed placed_a

-- A second session takes another slot.
abbrev label_b : List ℕ
label_b = 118 ∷ 109 ∷ []

abbrev mac_b : Mac
mac_b = record { addr_0 = 2; addr_1 = 25; addr_2 = 78; addr_3 = 197; addr_4 = 178; addr_5 = 4 }

abbrev two : Elements
two = set one 25 (some (record { obj = 6; mac = mac_b }))

placed_b : insert 1 label_b 6 one ≡ placed two mac_b
unfolding insert
placed_b = refl

found_a : find mac_a one ≡ found 5
unfolding find
found_a = refl

insert_keeps_at_sample : (find mac_a two ≡ found 5) × (index mac_a ≢ index mac_b)
insert_keeps_at_sample = insert_keeps 1 label_b 6 one two mac_b mac_a 5 placed_b found_a

abbrev full : Elements
full = replicate 255 (some (record { obj = 5; mac = mac_a }))

replicate_taken :
    (n i : ℕ) (e : Element)
    → ◌≢◌ {A = Option (Option Element)} (get_elem? (replicate n (some e)) i) (some none)
replicate_taken zero i e h = cc
replicate_taken (suc n) zero e h = cc
replicate_taken (suc n) (suc i) e h = replicate_taken n i e h

insert_full_at_sample : ¬ (insert 3 label_a 5 full ≡ placed full mac_a)
insert_full_at_sample =
    insert_full 3 label_a 5 full full mac_a
      (λ i. replicate_taken 255 i (record { obj = 5; mac = mac_a }))

-- A stream without limits, and the bus of the two sessions.
abbrev stream : Stream
stream = record { ready_to_submit = λ s. true; room = λ n s. true }

abbrev bus : Bus
bus = record { elements = two; sources = λ i. record { queue = []; acked = 0 } }

abbrev frame : Mac → Packet
frame dst = record { size = 60; valid = true; dst = dst; src = mac_a; payload = [] }

abbrev element_a : Element
element_a = record { obj = 5; mac = mac_a }

handle_packet-Handled_example :
    OnRun
      (Handled element_a (frame mac_b) bus)
      (Beyond (frame mac_b) two)
      (handle_packet stream element_a (frame mac_b) bus)
handle_packet-Handled_example = handle_packet-Handled stream (frame mac_b) bus element_a

-- What stands in a slot after a write.
set_slot :
    (es : Elements) (n k : ℕ) (v x : Element)
    → get_elem? (set es n (some v)) k ≡ some (some x)
    → (x ≡ v) ⊎ (get_elem? es k ≡ some (some x))
set_slot [] n k v x h = absurd (cc)
set_slot (e ∷ es) zero zero v x h = inl (cc)
set_slot (e ∷ es) zero (suc k) v x h = inr h
set_slot (e ∷ es) (suc n) zero v x h = inr h
set_slot (e ∷ es) (suc n) (suc k) v x h = set_slot es n k v x h

other_session : NotNamed 5 mac_b two
other_session k x h five = elim (set_slot one 25 k (record { obj = 6; mac = mac_b }) x h) [
  | inl b ↦ absurd (omega (arith, sym five ∙ ap (λ y. y.obj) b))
  | inr rest ↦ elim (set_slot empty 7 k (record { obj = 5; mac = mac_a }) x rest) [
    | inl a ↦ ap (λ y. mac_eq y.mac mac_b) a
    | inr nothing ↦ absurd (replicate-none 255 k x nothing)
  ]
]

unicast_private_example :
    OnRun
      (λ c. c.sources 5 ≡ bus.sources 5)
      (Beyond (frame mac_b) two)
      (handle_packet stream element_a (frame mac_b) bus)
unicast_private_example = unicast_private stream element_a (frame mac_b) 5 bus refl other_session

abbrev broadcast : Mac
broadcast = record {
  addr_0 = 255;
  addr_1 = 255;
  addr_2 = 255;
  addr_3 = 255;
  addr_4 = 255;
  addr_5 = 255;
}

Open-stream : Open stream
Open-stream = record { ready = λ s. refl; room = λ n s. refl }

multicast_reaches_at_sample :
    (c : Bus) × ((handle_packet stream element_a (frame broadcast) bus ≡ done c)
      × ((i : ℕ) → (c.sources i).queue ≡ replicate (copies i two) (frame broadcast) ++ []))
multicast_reaches_at_sample =
    multicast_reaches stream element_a (frame broadcast) bus Open-stream refl (omega arith) refl
      refl
