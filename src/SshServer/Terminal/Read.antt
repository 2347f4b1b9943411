-- ===== src/SshServer/Terminal/Read.antt =====
-- `channel_data_cb` of src/server/ssh_server/ssh_callbacks.cc and `Terminal::read` of terminal.h: what
-- the remote side types is what the client reads.
use genode_world.Prelude.{
  ℕ, suc, ◌+◌, ◌-◌, ◌≤◌, ◌==◌, min, ltb, Bool, true, false, Bool-cases, List, [], ◌∷◌, ◌++◌, map,
  some, ◌≡◌, inl, inr, refl, sym, ap, ◌∙◌, arith, subst,
}
use genode_world.Prelude.{
  length, take, drop, drop-drop, take-add, take-take_le, length-take, if-true, if-false, dec_lt,
}
use genode_world.SshServer.Buffer.{
  Buffer, IsValid, Appended, Appended-refl, Appended-trans, append-Appended, consume, length-text,
  read_avail, read_avail_lem, reset, text, text-reset, reset-IsValid, text_of_none, write_avail,
  write_avail_lem,
}
use genode_world.SshServer.Terminal.{
  Terminal, bind_buffer, channel_data, data_loop, del_to_bs, notified, notify_read_avail, read,
  read_available, submit,
}

-- The bytes that `read` gives, and what it leaves.
abbrev pub given : ℕ → Terminal → List ℕ
given d t = (read d t).0

abbrev pub left : ℕ → Terminal → Buffer
left d t = ((read d t).1).read_buf

module _ (C : ℕ) where
  -- As many bytes are taken as there is room for.
  abbrev Takes : List ℕ → ℕ → Buffer → Type 0
  Takes src n b =
      (b' : Buffer) × (data_loop C src n b ≡ some (n + min (length src) (C - b.head), b'))
      × Appended C (map (del_to_bs) (take (min (length src) (C - b.head)) src)) b b'

  filled :
      (src : List ℕ) (n : ℕ) (b : Buffer)
      → IsValid C b
      → data_loop C src n b ≡ some (n, b)
      → min (length src) (C - b.head) ≡ 0
      → Takes src n b
  filled src n b v e z = (
    b,
    e ∙ ap (λ k. some (k, b)) (omega arith),
    subst (λ k. Appended C (map (del_to_bs) (take k src)) b b) (sym z) (Appended-refl C b v),
  )

  pub loop-Takes : (src : List ℕ) (n : ℕ) (b : Buffer) → IsValid C b → Takes src n b
  unfolding data_loop
  loop-Takes [] n b v = filled [] n b v refl (omega arith)
  loop-Takes (c ∷ src) n b v = elim (dec_lt b.head C) [
    | no full ↦
        filled (c ∷ src) n b v
          (if-false (ltb 0 (write_avail C b)) _ _ (ground (arith, write_avail_lem C b)))
          (omega arith)
    | yes room ↦
        let (b1, e1, a1) = append-Appended C (del_to_bs c) b v room in
        let (b2, e2, a2) = loop-Takes src (suc n) b1 a1.valid in
        let k : min (length (c ∷ src)) (C - b.head) ≡ suc (min (length src) (C - b1.head)) =
          omega (arith, a1.head_moves) in
        (
          b2,
          if-true (ltb 0 (write_avail C b)) _ _ (ground (arith, write_avail_lem C b))
              ∙ ap (λ m. bind_buffer m (data_loop C src (suc n))) e1
              ∙ e2
              ∙ ap (λ j. some (j, b2)) (omega arith),
          subst (λ j. Appended C (map (del_to_bs) (take j (c ∷ src))) b b2) (sym k)
              (Appended-trans C (del_to_bs c ∷ []) _ b b1 b2 a1 a2),
        )
  ]

  -- What `read` gives and what it leaves are what the buffer had.
  pub text-consume :
      (k : ℕ) (b : Buffer)
      → IsValid C b
      → k ≤ read_avail b
      → take k (text b) ++ text (consume k b) ≡ text b
  unfolding text
  text-consume k b v h =
      let o = v.ordered in
      let r = read_avail_lem b in
      let r' = read_avail_lem (consume k b) in
      let left : read_avail (consume k b) ≡ read_avail b - k = omega arith in
      ap (λ xs. xs ++ text (consume k b)) (take-take_le k (read_avail b) (drop b.tail b.data_) h)
      ∙ ap (λ n. take k (drop b.tail b.data_) ++ take n (drop (b.tail + k) b.data_)) left
      ∙ ap (λ xs. take k (drop b.tail b.data_) ++ take (read_avail b - k) xs)
          (drop-drop b.tail k b.data_ refl)
      ∙ sym (take-add k (read_avail b - k) (drop b.tail b.data_) (omega arith))

  pub consume-IsValid :
      (k : ℕ) (b : Buffer) → IsValid C b → k ≤ read_avail b → IsValid C (consume k b)
  consume-IsValid k b v h =
      let o = v.ordered in
      let r = read_avail_lem b in
      record { sized = v.sized; ordered = omega arith; bounded = v.bounded }

  rest_of : ℕ → Terminal → Buffer
  rest_of d t = consume (min d (read_avail t.read_buf)) t.read_buf

  after_signal :
      (valid : Bool) (b : Buffer) (t : Terminal) (P : Buffer → Type 0)
      → P b
      → P ((submit valid read_available (record t { read_buf = b })).read_buf)
  after_signal true b t P p = p
  after_signal false b t P p = p

  -- What is left is the rest, which is reset if it is empty.
  left_of :
      (d : ℕ) (t : Terminal) (P : Buffer → Type 0)
      → (read_avail (rest_of d t) ≡ 0 → P (reset (rest_of d t)))
      → P (rest_of d t)
      → P (left d t)
  unfolding read rest_of
  left_of d t P empty more =
      let b : Buffer = consume (min d (read_avail t.read_buf)) t.read_buf in
      elim (Bool-cases (read_avail b == 0)) [
        | inl e ↦
            subst (λ (s : Terminal). P s.read_buf) (sym (if-true (read_avail b == 0) _ _ e))
              (empty (ground (arith, e)))
        | inr e ↦
            subst (λ (s : Terminal). P s.read_buf) (sym (if-false (read_avail b == 0) _ _ e))
              (after_signal t.read_avail_sigh b t P more)
      ]

  pub record Reads (d : ℕ) (t : Terminal) : Type 0 where
    pub parts : given d t ++ text (left d t) ≡ text t.read_buf
    pub as_many : length (given d t) ≡ min d (read_avail t.read_buf)
    pub valid : IsValid C (left d t)

  pub read-Reads : (d : ℕ) (t : Terminal) → IsValid C t.read_buf → Reads d t
  unfolding read rest_of
  read-Reads d t v =
      let k = min d (read_avail t.read_buf) in
      let h : k ≤ read_avail t.read_buf = omega arith in
      let c = text-consume k t.read_buf v h in
      let w = consume-IsValid k t.read_buf v h in
      record {
        parts =
            left_of d t (λ b. take k (text t.read_buf) ++ text b ≡ text t.read_buf)
              (λ e.
                ap (λ xs. take k (text t.read_buf) ++ xs)
                  (text-reset (rest_of d t) ∙ sym (text_of_none (rest_of d t) e))
                ∙ c)
              c;
        as_many = omega (arith, length-take k (text t.read_buf), length-text C t.read_buf v);
        valid = left_of d t (IsValid C) (λ e. reset-IsValid C (rest_of d t) w) w;
      }

  -- What `channel_data` does to a terminal.
  pub record Typed (src : List ℕ) (t : Terminal) (t' : Terminal) : Type 0 where
    pub result : channel_data C src t ≡ some (min (length src) (C - t.read_buf.head), t')
    pub appended :
        Appended C
          (map (del_to_bs) (take (min (length src) (C - t.read_buf.head)) src))
          t.read_buf
          t'.read_buf

  channel_data-Typed :
      (src : List ℕ) (t : Terminal) → IsValid C t.read_buf → (t' : Terminal) × Typed src t t'
  unfolding channel_data
  channel_data-Typed [] t v =
      let z : 0 ≡ min 0 (C - t.read_buf.head) = omega arith in
      (
        t,
        record {
          result = ap (λ k. some (k, t)) z;
          appended =
              subst (λ k. Appended C (map (del_to_bs) (take k [])) t.read_buf t.read_buf) z
                (Appended-refl C t.read_buf v);
        },
      )
  channel_data-Typed (c ∷ src) t v =
      let (b, e, a) = loop-Takes (c ∷ src) 0 t.read_buf v in
      (
        notify_read_avail (record t { read_buf = b }),
        record {
          result = ap (notified C t) e ∙ ap (λ k. notified C t (some (k, b))) (omega arith);
          appended =
              after_signal t.read_avail_sigh b t
                (λ x.
                  Appended C
                    (map (del_to_bs)
                      (take (min (length (c ∷ src)) (C - t.read_buf.head)) (c ∷ src)))
                    t.read_buf x)
                a;
        },
      )

  -- Data that comes for a valid read buffer is stored as far as there is room, with BS for DEL,
  -- and never beyond the buffer. A `read` of any size after it gives a first part of all that is
  -- stored, as long as was asked for or all of it, and the valid buffer has the rest.
  pub read-channel_data :
      (src : List ℕ) (d : ℕ) (t : Terminal)
      → IsValid C t.read_buf
      → (t' : Terminal) × (channel_data C src t ≡ some (min (length src) (C - t.read_buf.head), t'))
        × (given d t' ++ text (left d t')
            ≡ text t.read_buf
              ++ map (del_to_bs) (take (min (length src) (C - t.read_buf.head)) src))
        × (length (given d t') ≡ min d (length (text t'.read_buf)))
        × IsValid C (left d t')
  read-channel_data src d t v =
      let (t', h) = channel_data-Typed src t v in
      let r = read-Reads d t' h.appended.valid in
      (
        t',
        h.result,
        r.parts ∙ h.appended.bytes,
        r.as_many ∙ ap (min d) (sym (length-text C t'.read_buf h.appended.valid)),
        r.valid,
      )
