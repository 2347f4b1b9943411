-- ===== src/NicBus/Bus/Insert.antt =====
-- What an insertion does to the bus.
use genode_world.Prelude.{
  subst, ℕ, zero, suc, ◌≡◌, ◌≢◌, refl, sym, ap, ◌∙◌, inl, inr, true, ◌==◌, List, Option, none, some,
  arith, length, length-set, get_elem?, set, Bool-cases, if-true, ltb,
}
use genode_world.NicBus.Bus.{
  Mac, mac_eq, Element, Elements, placed, beyond, probe, insert, remove, find, matching, found,
  absent, index, slot_of, mac_of, next_hash, label_hash, fnv_64_offset,
}
use genode_world.NicBus.Bus.Slots.{get_elem?_lt, get-set, get-set_other, set-set}

-- The new session stands in a slot that was free.
pub record Inserted (obj : ℕ) (es es' : Elements) (mac : Mac) : Type 0 where
  pub free : get_elem? es (index mac) ≡ some none
  pub result : es' ≡ set es (index mac) (some (record { obj = obj; mac = mac }))

-- One round of the loop.
module _ (fuel hash obj : ℕ) (es : Elements) where
  pub probe-beyond :
      get_elem? es (slot_of (next_hash hash)) ≡ none
      → probe (suc fuel) hash obj es ≡ beyond (slot_of (next_hash hash))
  unfolding probe
  probe-beyond e = rw (e, probe) refl

  pub probe-taken :
      (x : Element)
      → get_elem? es (slot_of (next_hash hash)) ≡ some (some x)
      → probe (suc fuel) hash obj es ≡ probe fuel (next_hash hash) obj es
  unfolding probe
  probe-taken x e = rw (e, probe) refl

  pub probe-free :
      get_elem? es (slot_of (next_hash hash)) ≡ some none
      → probe (suc fuel) hash obj es
        ≡ placed
            (set es
              (slot_of (next_hash hash))
              (some (record { obj = obj; mac = mac_of (next_hash hash) })))
            (mac_of (next_hash hash))
  unfolding probe
  probe-free e = rw (e, probe) refl

module _ (obj : ℕ) (es es' : Elements) (mac : Mac) where
  placed-Inserted :
      (hash : ℕ)
      → get_elem? es (slot_of hash) ≡ some none
      → placed
          (set es (slot_of hash) (some (record { obj = obj; mac = mac_of hash })))
          (mac_of hash)
        ≡ placed es' mac
      → Inserted obj es es' mac
  placed-Inserted hash free h =
      let same : mac_of hash ≡ mac = cc in
      let stored : set es (slot_of hash) (some (record { obj = obj; mac = mac_of hash })) ≡ es' =
        cc in
      let r : Inserted obj es es' (mac_of hash) = record { free = free; result = sym stored } in
      subst (Inserted obj es es') same r

  probe-Inserted :
      (fuel hash : ℕ) → probe fuel hash obj es ≡ placed es' mac → Inserted obj es es' mac
  unfolding probe
  probe-Inserted zero hash h = absurd (cc)
  probe-Inserted (suc fuel) hash h =
      by_slot (get_elem? es (slot_of (next_hash hash))) refl (probe-Inserted fuel (next_hash hash))
    where
      differ : {i : ℕ} → beyond i ≡ placed es' mac → ⊥
      differ d = cc

      by_slot :
          (o : Option (Option Element))
          → get_elem? es (slot_of (next_hash hash)) ≡ o
          → (probe fuel (next_hash hash) obj es ≡ placed es' mac → Inserted obj es es' mac)
          → Inserted obj es es' mac
      by_slot none e next = absurd (differ (sym (probe-beyond fuel hash obj es e) ∙ h))
      by_slot (some (some x)) e next = next (sym (probe-taken fuel hash obj es x e) ∙ h)
      by_slot (some none) e next =
          placed-Inserted (next_hash hash) e (sym (probe-free fuel hash obj es e) ∙ h)

insert-Inserted :
    (fuel : ℕ) (label : List ℕ) (obj : ℕ) (es es' : Elements) (mac : Mac)
    → insert fuel label obj es ≡ placed es' mac
    → Inserted obj es es' mac
unfolding insert
insert-Inserted fuel label obj es es' mac h =
    probe-Inserted obj es es' mac fuel (label_hash fnv_64_offset label) h

-- Every session stands in the slot that its MAC address names.
pub record WellFormed (es : Elements) : Type 0 where
  pub size : length es ≡ 255
  pub keyed : (i : ℕ) (e : Element) → get_elem? es i ≡ some (some e) → index e.mac ≡ i

Inserted-WellFormed :
    (obj : ℕ) (es es' : Elements) (mac : Mac)
    → Inserted obj es es' mac
    → WellFormed es
    → WellFormed es'
Inserted-WellFormed obj es es' mac v w =
    subst WellFormed (sym v.result)
      (record { size = length-set es (index mac) _ ∙ w.size; keyed = keyed })
  where
    keyed :
        (i : ℕ) (e : Element)
        → get_elem? (set es (index mac) (some (record { obj = obj; mac = mac }))) i ≡ some (some e)
        → index e.mac ≡ i
    keyed i e h = elim (Bool-cases (index mac == i)) [
      | inl same ↦
          let new : Element = record { obj = obj; mac = mac } in
          let at : index mac ≡ i = ground arith in
          let stored : get_elem? (set es (index mac) (some new)) i ≡ some (some new) =
            subst (λ j. get_elem? (set es (index mac) (some new)) j ≡ some (some new)) at
              (get-set es (index mac) (some new) none v.free) in
          let equal : new ≡ e = cc in ap (λ x. index x.mac) (sym equal) ∙ at
      | inr differ ↦
          w.keyed i e (sym (get-set_other es (index mac) i _ (λ q. absurd (ground arith))) ∙ h)
    ]

mac_eq_refl : (m : Mac) → mac_eq m m ≡ true
mac_eq_refl m = ground arith

in_range :
    (es : Elements) (i : ℕ) (v w : Option Element)
    → get_elem? es i ≡ some w
    → ltb i (length (set es i v)) ≡ true
in_range es i v w h =
    let n = length-set es i v in let l = get_elem?_lt es i w h in ground (arith, n, l)

-- If an insertion ends with a MAC address, the new session is found under this address, and the
-- removal of the address, which stays within the array, restores the bus.
pub insert-find :
    (fuel : ℕ) (label : List ℕ) (obj : ℕ) (es es' : Elements) (mac : Mac)
    → insert fuel label obj es ≡ placed es' mac
    → (find mac es' ≡ found obj) × (remove mac es' ≡ some es)
unfolding find remove
insert-find fuel label obj es es' mac h =
    let v = insert-Inserted fuel label obj es es' mac h in
    let new : Element = record { obj = obj; mac = mac } in
    (
      ap (find mac) v.result
          ∙ ap (matching mac) (get-set es (index mac) (some new) none v.free)
          ∙ if-true _ _ _ (mac_eq_refl mac),
      ap (remove mac) v.result
          ∙ if-true _ _ _ (in_range es (index mac) (some new) none v.free)
          ∙ ap some (set-set es (index mac) (some new) none v.free),
    )

absent-found : {o : ℕ} → absent ≡ found o → ⊥
absent-found d = cc

-- If an insertion ends with a MAC address, a session that was found under some address before is
-- still found under it, and its slot is not the new one.
pub insert_keeps :
    (fuel : ℕ) (label : List ℕ) (obj : ℕ) (es es' : Elements) (mac m : Mac) (o : ℕ)
    → insert fuel label obj es ≡ placed es' mac
    → find m es ≡ found o
    → (find m es' ≡ found o) × (index m ≢ index mac)
unfolding find
insert_keeps fuel label obj es es' mac m o h at = (
  ap (find m) v.result ∙ ap (matching m) (get-set_other es (index mac) (index m) _ other) ∙ at,
  λ e. other (sym e),
)
  where
    v : Inserted obj es es' mac
    v = insert-Inserted fuel label obj es es' mac h

    clash : matching m (some none) ≡ found o → ⊥
    clash d = absent-found d

    other : index mac ≢ index m
    other e = clash (sym (ap (matching m) (ap (get_elem? es) (sym e) ∙ v.free)) ∙ at)

-- An insertion that ends with a MAC address keeps the bus well-formed: it has 255 slots, and every
-- session stands in the slot that the second byte of its address names.
pub insert-WellFormed :
    (fuel : ℕ) (label : List ℕ) (obj : ℕ) (es es' : Elements) (mac : Mac)
    → WellFormed es
    → insert fuel label obj es ≡ placed es' mac
    → WellFormed es'
insert-WellFormed fuel label obj es es' mac w h =
    Inserted-WellFormed obj es es' mac (insert-Inserted fuel label obj es es' mac h) w

-- On a bus without a free slot no insertion ends with a MAC address, however many rounds the loop
-- takes.
pub insert_full :
    (fuel : ℕ) (label : List ℕ) (obj : ℕ) (es es' : Elements) (mac : Mac)
    → ((i : ℕ) → get_elem? es i ≢ some none)
    → ¬ (insert fuel label obj es ≡ placed es' mac)
insert_full fuel label obj es es' mac taken h =
    taken (index mac) (insert-Inserted fuel label obj es es' mac h).free
