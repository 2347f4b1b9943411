-- ===== src/NicBus/Session/Deliver.antt =====
-- What the delivery of a packet does to the sessions.
use genode_world.Prelude.{
  ℕ, suc, ◌≤◌, ◌≡◌, ◌⊎◌, refl, sym, ◌∙◌, inl, inr, true, false, ◌==◌, ◌||◌, not, [], ◌∷◌, Option,
  none, some, get_elem?, length, arith, Bool-cases, if-true, if-false, subst, ltb, if◌then◌else◌,
}
use genode_world.NicBus.Bus.{mac_eq, Element, Elements, Found, found, absent, matching, find, index}
use genode_world.NicBus.Bus.Slots.{get_elem?-none}
use genode_world.NicBus.Session.{
  Packet, Source, Stream, Bus, Run, done, uncaught, overrun, and_then, send, send_to, put,
  apply_found, apply, apply_all, is_multicast, handle_packet, release,
}

-- What holds of the result, and of the index of a read beyond the array.
abbrev pub OnRun : {A : Type 0} → (A → Type 0) → (ℕ → Type 0) → Run A → Type 0
OnRun P Q (done a) = P a
OnRun P Q uncaught = Unit
OnRun P Q (overrun i) = Q i

abbrev Never : ℕ → Type 0
Never i = ⊥

-- The same packet is put before the queue some number of times.
pub data Grown (pkt : Packet) (s : Source) : Source → Type 0 where
  same : {t : Source} → t.queue ≡ s.queue → Grown pkt s t
  more : {t u : Source} → Grown pkt s t → u.queue ≡ pkt ∷ t.queue → Grown pkt s u

Grown-trans : {pkt : Packet} {s t u : Source} → Grown pkt s t → Grown pkt t u → Grown pkt s u
Grown-trans (same e) (same f) = same (f ∙ e)
Grown-trans (more g e) (same f) = more g (f ∙ e)
Grown-trans g (more h f) = more (Grown-trans g h) f

send-Grown :
    (stream : Stream) (pkt : Packet) (s : Source) → OnRun (Grown pkt s) Never (send stream pkt s)
unfolding send
send-Grown stream pkt s = elim (Bool-cases (stream.ready_to_submit (release s))) [
  | inl ready ↦ elim (Bool-cases (stream.room pkt.size (release s))) [
    | inl room ↦ rw (ready, room) (more {t = s} (same refl) refl)
    | inr full ↦ rw (ready, full) tt
  ]
  | inr congested ↦ rw congested (same refl)
]

-- The session with the number `i` is on the bus, and the packet is for it: its destination is the
-- address of the session or a multicast address.
pub record Addressee (pkt : Packet) (es : Elements) (i : ℕ) : Type 0 where
  pub slot : ℕ
  pub element : Element
  pub on_bus : get_elem? es slot ≡ some (some element)
  pub named : element.obj ≡ i
  pub meant : (is_multicast pkt.dst ≡ true) ⊎ (mac_eq element.mac pkt.dst ≡ true)

-- The bus after copies of a packet for sessions with `Reach`.
pub record Delivered (Reach : ℕ → Type 0) (pkt : Packet) (b c : Bus) : Type 0 where
  pub elements : c.elements ≡ b.elements
  pub grown : (i : ℕ) → Grown pkt (b.sources i) (c.sources i)
  pub reached : (i : ℕ) → (c.sources i ≡ b.sources i) ⊎ Reach i

module _ {Reach : ℕ → Type 0} {pkt : Packet} where
  Delivered-refl : (b : Bus) → Delivered Reach pkt b b
  Delivered-refl b = record { elements = refl; grown = λ i. same refl; reached = λ i. inl refl }

  Delivered-trans :
      {b c d : Bus} → Delivered Reach pkt b c → Delivered Reach pkt c d → Delivered Reach pkt b d
  Delivered-trans f g = record {
    elements = g.elements ∙ f.elements;
    grown = λ i. Grown-trans (f.grown i) (g.grown i);
    reached = λ i. either (f.reached i) (g.reached i);
  }
    where
      either : {x y z : Source} {R : Type 0} → (y ≡ x) ⊎ R → (z ≡ y) ⊎ R → (z ≡ x) ⊎ R
      either (inl p) (inl q) = inl (q ∙ p)
      either (inl p) (inr r) = inr r
      either (inr r) q = inr r

  put-Delivered :
      (obj : ℕ) (s : Source) (b : Bus)
      → Reach obj
      → Grown pkt (b.sources obj) s
      → Delivered Reach pkt b (put obj s b)
  put-Delivered obj s b here g = record { elements = refl; grown = grown; reached = reached }
    where
      grown : (i : ℕ) → Grown pkt (b.sources i) (if i == obj then s else b.sources i)
      grown i = elim (Bool-cases (i == obj)) [
        | inl e ↦
            let at : obj ≡ i = ground arith in
            rw (if-true _ s (b.sources i) e) (subst (λ j. Grown pkt (b.sources j) s) at g)
        | inr away ↦ rw (if-false _ s (b.sources i) away) (same refl)
      ]

      reached : (i : ℕ) → ((if i == obj then s else b.sources i) ≡ b.sources i) ⊎ Reach i
      reached i = elim (Bool-cases (i == obj)) [
        | inl e ↦ let at : obj ≡ i = ground arith in inr (subst Reach at here)
        | inr away ↦ inl (if-false _ s (b.sources i) away)
      ]

module _ (stream : Stream) (pkt : Packet) (Reach : ℕ → Type 0) where
  send_to-Delivered :
      (obj : ℕ) (b : Bus)
      → Reach obj
      → OnRun (Delivered Reach pkt b) Never (send_to stream pkt obj b)
  unfolding send_to
  send_to-Delivered obj b here =
      from (send stream pkt (b.sources obj)) (send-Grown stream pkt (b.sources obj))
    where
      from :
          (o : Run Source)
          → OnRun (Grown pkt (b.sources obj)) Never o
          → OnRun (Delivered Reach pkt b) Never (and_then o (λ s. done (put obj s b)))
      from (done s) g = put-Delivered obj s b here g
      from uncaught g = tt
      from (overrun i) g = absurd g

  apply_all-Delivered :
      (es : Elements) (b c : Bus)
      → ((k : ℕ) (x : Element) → get_elem? es k ≡ some (some x) → Reach x.obj)
      → Delivered Reach pkt b c
      → OnRun (Delivered Reach pkt b) Never (apply_all stream pkt es c)
  unfolding apply_all
  apply_all-Delivered [] b c all d = d
  apply_all-Delivered (none ∷ es) b c all d = apply_all-Delivered es b c (λ k. all (suc k)) d
  apply_all-Delivered (some e ∷ es) b c all d =
      from (send_to stream pkt e.obj c) (send_to-Delivered e.obj c (all 0 e refl))
        (λ next g. apply_all-Delivered es b next (λ k. all (suc k)) (Delivered-trans d g))
    where
      from :
          (o : Run Bus)
          → OnRun (Delivered Reach pkt c) Never o
          → ((next : Bus)
              → Delivered Reach pkt c next
              → OnRun (Delivered Reach pkt b) Never (apply_all stream pkt es next))
          → OnRun (Delivered Reach pkt b) Never (and_then o (apply_all stream pkt es))
      from (done next) g k = k next g
      from uncaught g k = tt
      from (overrun i) g k = absurd g

-- A read beyond the array: the slot that the destination, a unicast address, names.
pub record Beyond (pkt : Packet) (es : Elements) (i : ℕ) : Type 0 where
  pub unicast : is_multicast pkt.dst ≡ false
  pub slot : i ≡ index pkt.dst
  pub outside : length es ≤ i

-- What a session may make of the bus by one packet.
pub data Handled (e : Element) (pkt : Packet) (b c : Bus) : Type 0 where
  ignored : c ≡ b → Handled e pkt b c
  delivered :
      mac_eq pkt.src e.mac ≡ true → Delivered (Addressee pkt b.elements) pkt b c → Handled e pkt b c

module _ (stream : Stream) (pkt : Packet) (b : Bus) where
  apply-Delivered :
      is_multicast pkt.dst ≡ false
      → OnRun
          (Delivered (Addressee pkt b.elements) pkt b)
          (Beyond pkt b.elements)
          (apply stream pkt pkt.dst b)
  unfolding apply find
  apply-Delivered one = from (get_elem? b.elements (index pkt.dst)) refl
    where
      sent :
          (o : Run Bus)
          → OnRun (Delivered (Addressee pkt b.elements) pkt b) Never o
          → OnRun (Delivered (Addressee pkt b.elements) pkt b) (Beyond pkt b.elements) o
      sent (done c) d = d
      sent uncaught d = tt
      sent (overrun i) d = absurd d

      Result : Found → Type 0
      Result f =
          OnRun (Delivered (Addressee pkt b.elements) pkt b) (Beyond pkt b.elements)
            (apply_found stream pkt b f)

      from :
          (o : Option (Option Element))
          → get_elem? b.elements (index pkt.dst) ≡ o
          → Result (matching pkt.dst o)
      from none h = record {
        unicast = one;
        slot = refl;
        outside = get_elem?-none b.elements (index pkt.dst) h;
      }
      from (some none) h = Delivered-refl b
      from (some (some x)) h = elim (Bool-cases (mac_eq x.mac pkt.dst)) [
        | inl e ↦ subst Result (sym (if-true (mac_eq x.mac pkt.dst) (found x.obj) absent e)) (
            sent (send_to stream pkt x.obj b) (
              send_to-Delivered stream pkt (Addressee pkt b.elements) x.obj b record {
                slot = index pkt.dst;
                element = x;
                on_bus = h;
                named = refl;
                meant = inr e;
              }))
        | inr e ↦
            subst Result (sym (if-false (mac_eq x.mac pkt.dst) (found x.obj) absent e))
              (Delivered-refl b)
      ]

  own_packet :
      (e : Element) (Q : ℕ → Type 0) (o : Run Bus)
      → mac_eq pkt.src e.mac ≡ true
      → ((i : ℕ) → Q i → Beyond pkt b.elements i)
      → OnRun (Delivered (Addressee pkt b.elements) pkt b) Q o
      → OnRun (Handled e pkt b) (Beyond pkt b.elements) o
  own_packet e Q (done c) own f d = delivered own d
  own_packet e Q uncaught own f d = tt
  own_packet e Q (overrun i) own f d = f i d

  -- Whatever packet a session sends: either nothing changes; or the source address is the one of
  -- the session, every session's queue grew by copies of this packet only, the sessions on the bus
  -- are unchanged, and a session is untouched unless it is on the bus with the destination as its
  -- address, all six bytes of it, or the destination is a multicast address; or the destination is
  -- a unicast address whose second byte is not below the size of the array, and the code reads the
  -- array at this index; or an exception ends the server.
  pub handle_packet-Handled :
      (e : Element) → OnRun (Handled e pkt b) (Beyond pkt b.elements) (handle_packet stream e pkt b)
  unfolding handle_packet
  handle_packet-Handled e = elim (Bool-cases (pkt.size == 0 || not pkt.valid)) [
    | inl empty ↦ rw empty (ignored refl)
    | inr full ↦ elim (Bool-cases (ltb pkt.size 14)) [
      | inl short ↦ rw (full, short) tt
      | inr long ↦ elim (Bool-cases (mac_eq pkt.src e.mac)) [
        | inr foreign ↦ rw (full, long, foreign) (ignored refl)
        | inl own ↦ elim (Bool-cases (is_multicast pkt.dst)) [
          | inl many ↦
              rw (full, long, own, many)
                (own_packet e Never (apply_all stream pkt b.elements b) own (λ i x. absurd x)
                  (apply_all-Delivered stream pkt (Addressee pkt b.elements) b.elements b b
                    (λ k x h. record {
                      slot = k;
                      element = x;
                      on_bus = h;
                      named = refl;
                      meant = inl many;
                    })
                    (Delivered-refl b)))
          | inr one ↦
              rw (full, long, own, one)
                (own_packet e (Beyond pkt b.elements) (apply stream pkt pkt.dst b) own (λ i x. x)
                  (apply-Delivered one))
        ]
      ]
    ]
  ]
