-- ===== src/SshServer/Sftp/Queue/Stream.antt =====
-- What the client gets from `send_queued_packets` of src/server/ssh_server/sftp.cc.
use genode_world.Prelude.{
  ℕ, ◌<◌, ◌+◌, ◌-◌, ◌≤◌, ltb, Bool, true, false, Bool-cases, List, [], ◌∷◌, ◌++◌, Option, none,
  some, length, take, drop, ◌≡◌, inl, inr, refl, sym, ap, ◌∙◌, subst, arith, append_assoc,
  append-take-drop, drop-drop, length-drop, take-length_le, if-true, if-false,
}
use genode_world.SshServer.Sftp.Packets.{
  State, uninitialized, created, initialized, worker_closing, worker_finished, create_error, clean,
}
use genode_world.SshServer.Sftp.Queue.{
  Channel, Output, signal_wake_up, after_error, after_write, write_payload, send_pending,
  send_output, send_queued_packets,
}

abbrev pub concat : List (List ℕ) → List ℕ
concat [] = []
concat (p ∷ ps) = p ++ concat ps

abbrev pub rest_of : Option (List ℕ × ℕ) → List ℕ
rest_of none = []
rest_of (some (payload, pos)) = drop pos payload

-- A channel whose client has `received` what was written; a write that fails gives it nothing.
pub record IsChannel {C : Type 0} (ssh : Channel C) (received : C → List ℕ) : Type 0 where
  pub write_lem :
      (bytes : List ℕ) (c : C) (n : ℕ)
      → (ssh.write bytes c).0 ≡ some n
      → received (ssh.write bytes c).1 ≡ received c ++ take n bytes
  pub error_lem :
      (bytes : List ℕ) (c : C)
      → (ssh.write bytes c).0 ≡ none
      → received (ssh.write bytes c).1 ≡ received c

module _ {C : Type 0} (ssh : Channel C) (received : C → List ℕ)
    (lawful : IsChannel ssh received) where
  -- What waits to be sent.
  abbrev pub waiting : Output C → List ℕ
  waiting s = rest_of s.output_payload ++ concat s.pending_packets

  abbrev pub stream : Output C → List ℕ
  stream s = received s.channel ++ waiting s

  -- The state after a write that failed.
  abbrev pub ended : State → State
  ended created = worker_closing
  ended initialized = worker_closing
  ended uninitialized = uninitialized
  ended worker_closing = worker_closing
  ended worker_finished = worker_finished
  ended create_error = create_error
  ended clean = clean

  -- Why the loop ends with `lost` not sent: all was sent, the channel took a part of the data, it is
  -- not open, or it failed on the data that is lost.
  pub data Reason (lost : List ℕ) (state : State) (s' : Output C) : Type 0 where
    all_sent :
        lost ≡ []
        → s'.state ≡ state
        → s'.output_payload ≡ none
        → s'.pending_packets ≡ []
        → Reason lost state s'
    taken_in_part :
        lost ≡ []
        → s'.state ≡ state
        → (bytes : List ℕ) (c : C) (n : ℕ) → (ssh.write bytes c).0 ≡ some n
        → n < length bytes
        → s'.channel ≡ (ssh.write bytes c).1
        → Reason lost state s'
    not_open : lost ≡ [] → s'.state ≡ state → ssh.is_open s'.channel ≡ false → Reason lost state s'
    failed :
        (c : C)
        → (ssh.write lost c).0 ≡ none
        → s'.channel ≡ (ssh.write lost c).1
        → s'.output_payload ≡ none
        → s'.state ≡ ended state
        → Reason lost state s'

  -- What was received, lost and waits still is what it was before.
  pub record Sends (before : List ℕ) (state : State) (s' : Output C) : Type 0 where
    pub lost : List ℕ
    pub kept : received s'.channel ++ (lost ++ waiting s') ≡ before
    pub reason : Reason lost state s'

  after_error_keeps :
      (st : State) (s : Output C)
      → s.state ≡ st
      → ((after_error ssh st s).channel ≡ s.channel)
        × (waiting (after_error ssh st s) ≡ waiting s)
        × ((after_error ssh st s).output_payload ≡ s.output_payload)
        × ((after_error ssh st s).state ≡ ended st)
  after_error_keeps created s e = (refl, refl, refl, refl)
  after_error_keeps initialized s e = (refl, refl, refl, refl)
  after_error_keeps uninitialized s e = (refl, refl, refl, e)
  after_error_keeps worker_closing s e = (refl, refl, refl, e)
  after_error_keeps worker_finished s e = (refl, refl, refl, e)
  after_error_keeps create_error s e = (refl, refl, refl, e)
  after_error_keeps clean s e = (refl, refl, refl, e)

  -- What the turns after this one do.
  abbrev Goes : List (List ℕ) → (Output C → Output C) → Type 0
  Goes ps again =
      (t : Output C)
      → t.output_payload ≡ none
      → t.pending_packets ≡ ps
      → Sends (received t.channel ++ concat ps) t.state (again t)

  write-Sends :
      (ps : List (List ℕ)) (again : Output C → Output C) (payload : List ℕ) (pos : ℕ) (s : Output C)
      → s.output_payload ≡ none
      → s.pending_packets ≡ ps
      → Goes ps again
      → Sends
          (received s.channel ++ (drop pos payload ++ concat ps))
          s.state
          (write_payload ssh again payload pos s)
  write-Sends ps again payload pos s free queue go = by_result (ssh.write bytes s.channel).0 refl
    where
      bytes : List ℕ
      bytes = drop pos payload

      s1 : Output C
      s1 = record s { channel = (ssh.write bytes s.channel).1 }

      Out : Output C → Type 0
      Out o = Sends (received s.channel ++ (bytes ++ concat ps)) s.state o

      waits : waiting s1 ≡ concat ps
      waits = ap (λ o. rest_of o ++ concat s.pending_packets) free ∙ ap concat queue

      part :
          (n : ℕ)
          → (ssh.write bytes s.channel).0 ≡ some n
          → n < length payload - pos
          → Out (record s1 { output_payload = some (payload, pos + n) })
      part n e lt =
          let cut : take n bytes ++ drop (pos + n) payload ≡ bytes =
            ap (λ x. take n bytes ++ x) (drop-drop pos n payload refl) ∙ append-take-drop n bytes in
          record {
            lost = [];
            kept =
                ap (λ x. x ++ (drop (pos + n) payload ++ concat s.pending_packets))
                  (lawful.write_lem bytes s.channel n e)
                ∙ append_assoc (received s.channel) (take n bytes) _
                ∙ ap (λ x. received s.channel ++ x)
                    (sym (append_assoc (take n bytes) (drop (pos + n) payload) _)
                      ∙ ap (λ x. x ++ concat s.pending_packets) cut
                      ∙ ap (λ q. bytes ++ concat q) queue);
            reason =
                taken_in_part refl refl bytes s.channel n e (omega (arith, length-drop pos payload))
                  refl;
          }

      whole :
          (n : ℕ)
          → (ssh.write bytes s.channel).0 ≡ some n
          → length payload - pos ≤ n
          → received s1.channel ++ concat ps ≡ received s.channel ++ (bytes ++ concat ps)
      whole n e le =
          ap (λ x. x ++ concat ps)
            (lawful.write_lem bytes s.channel n e
              ∙ ap (λ x. received s.channel ++ x)
                  (take-length_le n bytes (omega (arith, length-drop pos payload))))
          ∙ append_assoc (received s.channel) bytes (concat ps)

      by_result :
          (o : Option ℕ)
          → (ssh.write bytes s.channel).0 ≡ o
          → Out (after_write ssh again payload pos o s1)
      by_result none e =
          let (r, w, f, z) = after_error_keeps s.state s1 refl in
          record {
            lost = bytes;
            kept =
                ap (λ x. x ++ (bytes ++ waiting (after_error ssh s.state s1)))
                  (ap received r ∙ lawful.error_lem bytes s.channel e)
                ∙ ap (λ x. received s.channel ++ (bytes ++ x)) (w ∙ waits);
            reason = failed s.channel e r (f ∙ free) z;
          }
      by_result (some n) e = elim (Bool-cases (ltb n (length payload - pos))) [
        | inl c ↦
            subst Out (sym (if-true (ltb n (length payload - pos)) _ _ c))
              (part n e (ground (arith, c)))
        | inr c ↦ subst Out (sym (if-false (ltb n (length payload - pos)) _ _ c)) (
            subst (λ x. Sends x s.state (again s1)) (whole n e (ground (arith, c)))
              (go s1 free queue))
      ]

  pending_sends :
      (ps : List (List ℕ)) (signal_sent : Bool) → Goes ps (send_pending ssh ps signal_sent)
  unfolding send_pending
  pending_sends [] signal_sent t free queue = record {
    lost = [];
    kept =
        ap (λ x. received t.channel ++ x)
          (ap (λ o. rest_of o ++ concat t.pending_packets) free ∙ ap concat queue);
    reason = all_sent refl refl free queue;
  }
  pending_sends (p ∷ ps) true t free queue =
      write-Sends ps (send_pending ssh ps true) p 0 (record t { pending_packets = ps }) free refl
        (pending_sends ps true)
  pending_sends (p ∷ ps) false t free queue =
      write-Sends ps (send_pending ssh ps true) p 0
        (signal_wake_up ssh (record t { pending_packets = ps })) free refl (pending_sends ps true)

  -- `send_queued_packets` keeps the stream of replies, that is, what the client received followed
  -- by what waits, if writes take any part of the data. Either nothing is lost and the state
  -- stays, where all was sent, the last write took only a part, or the channel is not open; or the
  -- last write failed: what is lost is the data of this write, no payload is left in part, and the
  -- state is that after the simulated end.
  pub send_queued_packets-Sends :
      (s : Output C) → Sends (stream s) s.state (send_queued_packets ssh s)
  unfolding send_queued_packets
  send_queued_packets-Sends s = elim (Bool-cases (ssh.is_open s.channel)) [
    | inl o ↦
        subst (Sends (stream s) s.state) (sym (if-true (ssh.is_open s.channel) _ _ o))
          (by_output s.output_payload refl)
    | inr o ↦
        subst (Sends (stream s) s.state) (sym (if-false (ssh.is_open s.channel) _ _ o))
          record { lost = []; kept = refl; reason = not_open refl refl o }
  ]
    where
      by_output :
          (o : Option (List ℕ × ℕ))
          → s.output_payload ≡ o
          → Sends (stream s) s.state (send_output ssh o s)
      by_output none e =
          subst (λ x. Sends x s.state (send_output ssh none s))
            (ap (λ o. received s.channel ++ (rest_of o ++ concat s.pending_packets)) (sym e))
            (pending_sends s.pending_packets false s e refl)
      by_output (some (payload, pos)) e =
          subst (λ x. Sends x s.state (send_output ssh (some (payload, pos)) s))
            (ap (λ x. received s.channel ++ x)
              (sym (ap (λ o. rest_of o ++ concat s.pending_packets) e)))
            (write-Sends s.pending_packets (send_pending ssh s.pending_packets false) payload pos
              (record s { output_payload = none }) refl refl
              (pending_sends s.pending_packets false))
