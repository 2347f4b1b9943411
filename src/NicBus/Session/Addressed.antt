-- ===== src/NicBus/Session/Addressed.antt =====
-- Which sessions a packet reaches.
use genode_world.Prelude.{
  ℕ, zero, suc, ◌≤◌, ◌≡◌, refl, sym, ap, ◌∙◌, inl, inr, true, false, ◌==◌, ◌||◌, not, List, [], ◌∷◌,
  ◌++◌, none, some, arith, replicate, get_elem?, Bool-cases, if-true, if-false, ltb, if◌then◌else◌,
}
use genode_world.NicBus.Bus.{Mac, mac_eq, Element, Elements}
use genode_world.NicBus.Session.{
  Packet, Source, Stream, Bus, Run, done, uncaught, overrun, send, send_to, put, apply_all,
  is_multicast, handle_packet, release,
}
use genode_world.NicBus.Session.Deliver.{
  OnRun, Addressee, Beyond, Handled, ignored, delivered, handle_packet-Handled,
}

-- No session with the number `i` has the address.
abbrev pub NotNamed : ℕ → Mac → Elements → Type 0
NotNamed i mac es =
    (k : ℕ) (x : Element) → get_elem? es k ≡ some (some x) → x.obj ≡ i → mac_eq x.mac mac ≡ false

-- A packet to a unicast address leaves a session untouched that is not on the bus with exactly
-- this address, unless an exception ends the server or the code reads beyond the array at the
-- index that the address names.
pub unicast_private :
    (stream : Stream) (e : Element) (pkt : Packet) (i : ℕ) (b : Bus)
    → is_multicast pkt.dst ≡ false
    → NotNamed i pkt.dst b.elements
    → OnRun (λ c. c.sources i ≡ b.sources i) (Beyond pkt b.elements) (handle_packet stream e pkt b)
unicast_private stream e pkt i b one other =
    from (handle_packet stream e pkt b) (handle_packet-Handled stream pkt b e)
  where
    to_none : Addressee pkt b.elements i → ⊥
    to_none a = elim a.meant [
      | inl many ↦ cc (sym many ∙ one)
      | inr match ↦ cc (sym match ∙ other a.slot a.element a.on_bus a.named)
    ]

    kept : (c : Bus) → Handled e pkt b c → c.sources i ≡ b.sources i
    kept c (ignored h) = ap (λ x. x.sources i) h
    kept c (delivered own d) = elim (d.reached i) [ inl h ↦ h | inr a ↦ absurd (to_none a) ]

    from :
        (o : Run Bus)
        → OnRun (Handled e pkt b) (Beyond pkt b.elements) o
        → OnRun (λ c. c.sources i ≡ b.sources i) (Beyond pkt b.elements) o
    from (done c) h = kept c h
    from uncaught h = tt
    from (overrun n) h = h

-- The sessions with the number `i` on the bus.
unfoldable pub copies : ℕ → Elements → ℕ
copies i [] = 0
copies i (none ∷ es) = copies i es
copies i (some e ∷ es) = let rest = copies i es in if i == e.obj then suc rest else rest

replicate_shift :
    {A : Type 0} (n : ℕ) (a : A) (xs : List A)
    → replicate n a ++ (a ∷ xs) ≡ a ∷ (replicate n a ++ xs)
replicate_shift zero a xs = refl
replicate_shift (suc n) a xs = ap (λ l. a ∷ l) (replicate_shift n a xs)

-- A bus whose sessions have each got a number of copies.
abbrev Flooded : Packet → Elements → Bus → Bus → Type 0
Flooded pkt es b c =
    (i : ℕ) → (c.sources i).queue ≡ replicate (copies i es) pkt ++ (b.sources i).queue

-- A stream that takes any packet at any time.
pub record Open (stream : Stream) : Type 0 where
  pub ready : (s : Source) → stream.ready_to_submit s ≡ true
  pub room : (n : ℕ) (s : Source) → stream.room n s ≡ true

module _ (stream : Stream) (pkt : Packet) (o : Open stream) where
  send_open : (s : Source) → send stream pkt s ≡ done (record { queue = pkt ∷ s.queue; acked = 0 })
  unfolding send
  send_open s = if-true _ _ _ (o.ready (release s)) ∙ if-true _ _ _ (o.room pkt.size (release s))

  abbrev reached : ℕ → Bus → Bus
  reached obj b = put obj (record { queue = pkt ∷ (b.sources obj).queue; acked = 0 }) b

  send_to_open : (obj : ℕ) (b : Bus) → send_to stream pkt obj b ≡ done (reached obj b)
  unfolding send_to
  send_to_open obj b = rw (send_open (b.sources obj), send_to) refl

  -- What follows the first session.
  reached_queue :
      (e : Element) (es : Elements) (b : Bus) (i : ℕ)
      → replicate (copies i es) pkt ++ ((reached e.obj b).sources i).queue
        ≡ replicate (copies i (some e ∷ es)) pkt ++ (b.sources i).queue
  unfolding copies
  reached_queue e es b i = elim (Bool-cases (i == e.obj)) [
    | inl here ↦
        let n : ℕ = copies i es in
        let at : e.obj ≡ i = ground arith in
        let got : Source = record { queue = pkt ∷ (b.sources e.obj).queue; acked = 0 } in
        ap (λ s. replicate n pkt ++ s.queue) (if-true _ got (b.sources i) here)
        ∙ replicate_shift n pkt (b.sources e.obj).queue
        ∙ ap (λ j. pkt ∷ (replicate n pkt ++ (b.sources j).queue)) at
        ∙ ap (λ m. replicate m pkt ++ (b.sources i).queue) (sym (if-true _ (suc n) n here))
    | inr away ↦
        let n : ℕ = copies i es in
        let got : Source = record { queue = pkt ∷ (b.sources e.obj).queue; acked = 0 } in
        ap (λ s. replicate n pkt ++ s.queue) (if-false _ got (b.sources i) away)
        ∙ ap (λ m. replicate m pkt ++ (b.sources i).queue) (sym (if-false _ (suc n) n away))
  ]

  apply_all-Flooded :
      (es : Elements) (b : Bus)
      → (c : Bus) × ((apply_all stream pkt es b ≡ done c) × Flooded pkt es b c)
  unfolding apply_all copies
  apply_all-Flooded [] b = (b, (refl, λ i. refl))
  apply_all-Flooded (none ∷ es) b = apply_all-Flooded es b
  apply_all-Flooded (some e ∷ es) b =
      let step : apply_all stream pkt (some e ∷ es) b ≡ apply_all stream pkt es (reached e.obj b) =
        rw (send_to_open e.obj b, apply_all) refl in
      let rest = apply_all-Flooded es (reached e.obj b) in
      (rest.0, (step ∙ rest.1.0, λ i. rest.1.1 i ∙ reached_queue e es b i))

-- A valid packet of at least 14 bytes from the session's own address to a multicast address is
-- handled without an exception and is put into the queue of every session as often as it is on the
-- bus, the sender's included, if the packet streams take packets at any time.
pub multicast_reaches :
    (stream : Stream) (e : Element) (pkt : Packet) (b : Bus)
    → Open stream
    → pkt.valid ≡ true
    → 14 ≤ pkt.size
    → mac_eq pkt.src e.mac ≡ true
    → is_multicast pkt.dst ≡ true
    → (c : Bus) × ((handle_packet stream e pkt b ≡ done c)
        × ((i : ℕ)
            → (c.sources i).queue ≡ replicate (copies i b.elements) pkt ++ (b.sources i).queue))
unfolding handle_packet
multicast_reaches stream e pkt b o valid long own many =
    let full : (pkt.size == 0 || not pkt.valid) ≡ false = ground (arith, valid) in
    let whole : ltb pkt.size 14 ≡ false = ground arith in
    let all = apply_all-Flooded stream pkt o b.elements b in
    (
      all.0,
      (
        if-false _ _ _ full
            ∙ if-false _ _ _ whole
            ∙ if-true _ _ _ own
            ∙ if-true _ _ _ many
            ∙ all.1.0,
        all.1.1,
      ),
    )
