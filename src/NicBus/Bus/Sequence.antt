-- ===== src/NicBus/Bus/Sequence.antt =====
-- Which slot an insertion takes: the sequence of slots that the hash of a label runs through.
use genode_world.Prelude.{
  ℕ, zero, suc, ◌≤◌, ◌<◌, ◌≡◌, refl, ap, ◌∙◌, List, [], ◌∷◌, none, some, arith, length, get_elem?,
  set,
}
use genode_world.NicBus.Bus.{
  Element, Elements, placed, beyond, probe, insert, slot_of, mac_of, next_hash, label_hash,
  fnv_64_offset,
}
use genode_world.NicBus.Bus.Insert.{probe-beyond, probe-taken, probe-free}

-- The hash in the round `k + 1` of the loop is `hash_after (k + 1)` of the hash before it.
unfoldable pub hash_after : ℕ → ℕ → ℕ
hash_after zero hash = hash
hash_after (suc k) hash = hash_after k (next_hash hash)

-- The slot that is tried in this round holds a session.
abbrev pub Taken : Elements → ℕ → Type 0
Taken es hash = (x : Element) × (get_elem? es (slot_of hash) ≡ some (some x))

probe_takes_first :
    (k fuel hash obj : ℕ) (es : Elements)
    → k < fuel
    → ((j : ℕ) → j < k → Taken es (hash_after (suc j) hash))
    → get_elem? es (slot_of (hash_after (suc k) hash)) ≡ some none
    → let last = hash_after (suc k) hash in
      probe fuel hash obj es
      ≡ placed
          (set es (slot_of last) (some (record { obj = obj; mac = mac_of last })))
          (mac_of last)
unfolding hash_after
probe_takes_first k zero hash obj es enough taken free = absurd (omega arith)
probe_takes_first zero (suc fuel) hash obj es enough taken free = probe-free fuel hash obj es free
probe_takes_first (suc k) (suc fuel) hash obj es enough taken free =
    let first = taken 0 (omega arith) in
    probe-taken fuel hash obj es first.0 first.1
    ∙ probe_takes_first k fuel (next_hash hash) obj es (omega arith)
        (λ j lt. taken (suc j) (omega arith)) free

-- If the first `k` slots that the hash of the label runs through hold sessions and the next one is
-- free, the insertion takes this slot, with the MAC address of its hash, after `k + 1` rounds of
-- the loop.
pub insert_takes_first :
    (k fuel obj : ℕ) (label : List ℕ) (es : Elements)
    → k < fuel
    → ((j : ℕ) → j < k → Taken es (hash_after (suc j) (label_hash fnv_64_offset label)))
    → get_elem? es (slot_of (hash_after (suc k) (label_hash fnv_64_offset label))) ≡ some none
    → let last = hash_after (suc k) (label_hash fnv_64_offset label) in
      insert fuel label obj es
      ≡ placed
          (set es (slot_of last) (some (record { obj = obj; mac = mac_of last })))
          (mac_of last)
unfolding insert
insert_takes_first k fuel obj label es enough taken free =
    probe_takes_first k fuel (label_hash fnv_64_offset label) obj es enough taken free

get_elem?_beyond : (es : Elements) (i : ℕ) → length es ≤ i → get_elem? es i ≡ none
get_elem?_beyond [] i h = refl
get_elem?_beyond (x ∷ es) zero h = absurd (omega arith)
get_elem?_beyond (x ∷ es) (suc i) h = get_elem?_beyond es i (omega arith)

-- On a bus of 255 slots, the insertion of a label whose first slot has the number 255 reads beyond
-- the array.
pub insert_beyond :
    (fuel obj : ℕ) (label : List ℕ) (es : Elements)
    → length es ≡ 255
    → slot_of (next_hash (label_hash fnv_64_offset label)) ≡ 255
    → insert (suc fuel) label obj es ≡ beyond 255
unfolding insert
insert_beyond fuel obj label es size last =
    probe-beyond fuel (label_hash fnv_64_offset label) obj es
      (get_elem?_beyond es (slot_of (next_hash (label_hash fnv_64_offset label))) (omega arith))
    ∙ ap beyond last
