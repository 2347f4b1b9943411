-- ===== src/SshServer/Terminal/Write.antt =====
-- `Terminal::write` of src/server/ssh_server/terminal.h: what it stores, and where it writes beyond
-- the buffer.
use genode_world.Prelude.{
  ℕ, zero, suc, ◌+◌, ◌≤◌, ◌<◌, ◌==◌, ltb, if◌then◌else◌, true, Bool-cases, List, [], ◌∷◌, ◌++◌,
  none, some, ◌≡◌, ◌≢◌, ◌⊎◌, ◌↔◌, subst, inl, inr, refl, sym, ap, ◌∙◌, arith,
}
use genode_world.Prelude.{
  length, take, get_elem?, length-append, if-true, if-false, dec_lt, ℕ_discrete,
}
use genode_world.SshServer.Buffer.{
  Buffer, IsValid, Appended, Appended-refl, Appended-trans, append, append-Appended, append_full,
  write_avail, write_avail_lem,
}
use genode_world.SshServer.Terminal.{
  Terminal, woken, bind_buffer, write_char, write_loop, written, write,
}

-- What a character becomes, and a text.
abbrev pub one : ℕ → List ℕ
one c = if c == 10 then 13 ∷ 10 ∷ [] else c ∷ []

abbrev pub crlf : List ℕ → List ℕ
crlf [] = []
crlf (c ∷ cs) = one c ++ crlf cs

-- A newline comes where a single byte is left.
abbrev pub Overruns : ℕ → ℕ → List ℕ → Type 0
Overruns C head src =
    (k : ℕ) × (get_elem? src k ≡ some 10) × (head + length (crlf (take k src)) + 1 ≡ C)

module _ (C : ℕ) where
  char-Appended :
      (c : ℕ) (b : Buffer)
      → IsValid C b
      → b.head + length (one c) ≤ C
      → (b' : Buffer) × (write_char C c b ≡ some b') × Appended C (one c) b b'
  unfolding write_char
  char-Appended c b v h = elim (Bool-cases (c == 10)) [
    | inl e ↦
        let o : one c ≡ 13 ∷ 10 ∷ [] = if-true (c == 10) _ _ e in
        let h' : b.head + 2 ≤ C = omega (arith, ap length o) in
        let (b1, e1, a1) = append-Appended C 13 b v (omega arith) in
        let (b2, e2, a2) = append-Appended C c b1 a1.valid (omega (arith, a1.head_moves)) in
        (
          b2,
          ap (λ m. bind_buffer m (append C c)) (if-true (c == 10) _ _ e ∙ e1) ∙ e2,
          subst (λ cs. Appended C cs b b2) (ap (λ x. 13 ∷ x ∷ []) (ground (arith, e)) ∙ sym o)
              (Appended-trans C (13 ∷ []) (c ∷ []) b b1 b2 a1 a2),
        )
    | inr e ↦
        let o : one c ≡ c ∷ [] = if-false (c == 10) _ _ e in
        let (b1, e1, a1) = append-Appended C c b v (omega (arith, ap length o)) in
        (
          b1,
          ap (λ m. bind_buffer m (append C c)) (if-false (c == 10) _ _ e) ∙ e1,
          subst (λ cs. Appended C cs b b1) (sym o) a1,
        )
  ]

  char_overruns : (b : Buffer) → IsValid C b → suc b.head ≡ C → write_char C 10 b ≡ none
  unfolding write_char
  char_overruns b v h =
      let (b1, e1, a1) = append-Appended C 13 b v (omega arith) in
      ap (λ m. bind_buffer m (append C 10)) e1 ∙ append_full C 10 b1 (omega (arith, a1.head_moves))

  has_room : (b : Buffer) → b.head < C → ltb 0 (write_avail C b) ≡ true
  has_room b h = ground (arith, write_avail_lem C b)

  loop-char :
      (c : ℕ) (src : List ℕ) (n : ℕ) (b b' : Buffer)
      → b.head < C
      → write_char C c b ≡ some b'
      → write_loop C (c ∷ src) n b ≡ write_loop C src (suc n) b'
  unfolding write_loop
  loop-char c src n b b' h e =
      if-true (ltb 0 (write_avail C b)) _ _ (has_room b h)
      ∙ ap (λ m. bind_buffer m (write_loop C src (suc n))) e

  loop_full :
      (c : ℕ) (src : List ℕ) (n : ℕ) (b : Buffer)
      → C ≤ b.head
      → write_loop C (c ∷ src) n b ≡ some (n, b)
  unfolding write_loop
  loop_full c src n b h =
      if-false (ltb 0 (write_avail C b)) _ _ (ground (arith, write_avail_lem C b))

  loop_overruns :
      (c : ℕ) (src : List ℕ) (n : ℕ) (b : Buffer)
      → b.head < C
      → write_char C c b ≡ none
      → write_loop C (c ∷ src) n b ≡ none
  unfolding write_loop
  loop_overruns c src n b h e =
      if-true (ltb 0 (write_avail C b)) _ _ (has_room b h)
      ∙ ap (λ m. bind_buffer m (write_loop C src (suc n))) e

  -- A prefix is stored, and more of the text only if the buffer has room.
  pub record Stored (src : List ℕ) (n : ℕ) (b b' : Buffer) (n' : ℕ) : Type 0 where
    pub count : ℕ
    pub counted : n' ≡ n + count
    pub within : count ≤ length src
    pub appended : Appended C (crlf (take count src)) b b'
    pub ended : (count ≡ length src) ⊎ (b'.head ≡ C)

  one_length : (c : ℕ) → c ≢ 10 → length (one c) ≡ 1
  one_length c h = ap length (if-false (c == 10) _ _ (ground (arith, h)))

  one_positive : (c : ℕ) → 0 < length (one c)
  one_positive c = ground arith

  -- The two ways in which a character finds room.
  abbrev Fits : ℕ → Buffer → Type 0
  Fits c b = (b.head + length (one c) ≤ C) ⊎ ((c ≡ 10) × (suc b.head ≡ C))

  char-Fits : (c : ℕ) (b : Buffer) → b.head < C → Fits c b
  char-Fits c b h = elim (ℕ_discrete c 10) [
    | yes e ↦ elim (ℕ_discrete (suc b.head) C) [
      | yes e' ↦ inr (e, e')
      | no ne ↦ inl (omega (arith, ap (λ x. length (one x)) e))
    ]
    | no ne ↦ inl (omega (arith, one_length c ne))
  ]

  abbrev Stores : List ℕ → ℕ → Buffer → Type 0
  Stores src n b =
      (n' : ℕ) × (b' : Buffer) × (write_loop C src n b ≡ some (n', b')) × Stored src n b b' n'

  stores_none :
      (src : List ℕ) (n : ℕ) (b : Buffer)
      → IsValid C b
      → (length src ≡ 0) ⊎ (b.head ≡ C)
      → Stored src n b b n
  stores_none src n b v h = record {
    count = 0;
    counted = omega arith;
    within = omega arith;
    appended = Appended-refl C b v;
    ended = stops h;
  }
    where
      stops : (length src ≡ 0) ⊎ (b.head ≡ C) → (0 ≡ length src) ⊎ (b.head ≡ C)
      stops (inl e) = inl (sym e)
      stops (inr e) = inr e

  prepended :
      (c : ℕ) (src : List ℕ) (n : ℕ) (b b1 : Buffer)
      → b.head < C
      → write_char C c b ≡ some b1
      → Appended C (one c) b b1
      → Stores src (suc n) b1 ⊎ Overruns C b1.head src
      → Stores (c ∷ src) n b ⊎ Overruns C b.head (c ∷ src)
  prepended c src n b b1 room e1 a1 (inl (n', b', e', s)) = inl (
    n',
    b',
    loop-char c src n b b1 room e1 ∙ e',
    record {
      count = suc s.count;
      counted = let i = s.counted in omega arith;
      within = let i = s.within in omega arith;
      appended = Appended-trans C (one c) (crlf (take s.count src)) b b1 b' a1 s.appended;
      ended = stops s.ended;
    },
  )
    where
      stops :
          (s.count ≡ length src) ⊎ (b'.head ≡ C) → (suc s.count ≡ suc (length src)) ⊎ (b'.head ≡ C)
      stops (inl e) = inl (ap suc e)
      stops (inr e) = inr e
  prepended c src n b b1 room e1 a1 (inr (k, at, eq)) =
      inr (suc k, at, omega (arith, a1.head_moves, length-append (one c) (crlf (take k src))))

  loop_cases :
      (src : List ℕ) (n : ℕ) (b : Buffer) → IsValid C b → Stores src n b ⊎ Overruns C b.head src
  unfolding write_loop
  loop_cases [] n b v = inl (n, b, refl, stores_none [] n b v (inl refl))
  loop_cases (c ∷ src) n b v = elim (dec_lt b.head C) [
    | no full ↦ inl (
      n,
      b,
      loop_full c src n b (omega arith),
      stores_none (c ∷ src) n b v (inr (let bd = v.bounded in omega arith)),
    )
    | yes room ↦ elim (char-Fits c b room) [
      | inr (e, e') ↦ inr (0, ap some e, omega arith)
      | inl fits ↦
          let (b1, e1, a1) = char-Appended c b v fits in
          prepended c src n b b1 room e1 a1 (loop_cases src (suc n) b1 a1.valid)
    ]
  ]

  -- The loop writes beyond the buffer where a newline comes at its last byte.
  loop-Overruns :
      (src : List ℕ) (n : ℕ) (b : Buffer)
      → IsValid C b
      → Overruns C b.head src
      → write_loop C src n b ≡ none
  loop-Overruns [] n b v (k, at, e) = cc
  loop-Overruns (c ∷ src) n b v (zero, at, e) =
      let is_newline : c ≡ 10 = cc in
      loop_overruns c src n b (omega arith)
        (ap (λ x. write_char C x b) is_newline ∙ char_overruns b v (omega arith))
  loop-Overruns (c ∷ src) n b v (suc k, at, e) =
      let l = length-append (one c) (crlf (take k src)) in
      let (b1, e1, a1) = char-Appended c b v (omega arith) in
      loop-char c src n b b1 (omega (arith, one_positive c)) e1
      ∙ loop-Overruns src (suc n) b1 a1.valid (k, at, omega (arith, a1.head_moves))

  -- What `write` does where it does not overrun.
  pub record Wrote (src : List ℕ) (t : Terminal) (n : ℕ) (b' : Buffer) : Type 0 where
    pub result : write C src t ≡ some (n, record t { write_buf_ep = b'; events = woken ∷ t.events })
    pub within : n ≤ length src
    pub appended : Appended C (crlf (take n src)) t.write_buf_ep b'
    pub ended : (n ≡ length src) ⊎ (b'.head ≡ C)

  -- A `write` to a valid buffer that does not go beyond it appends the first `n` characters, with
  -- a carriage return before each newline, and reports `n`, which is less than the length only if
  -- the buffer is full afterwards; it wakes the loop up and leaves the rest of the terminal as it
  -- is.
  pub write-crlf :
      (src : List ℕ) (t : Terminal)
      → IsValid C t.write_buf_ep
      → write C src t ≢ none
      → (n : ℕ) × (b' : Buffer) × Wrote src t n b'
  unfolding write
  write-crlf src t v h = elim (loop_cases src 0 t.write_buf_ep v) [
    | inl (n, b', e, s) ↦
        let c : s.count ≡ n = let i = s.counted in omega arith in
        (
          n,
          b',
          record {
            result = ap (written C t) e;
            within = subst (λ k. k ≤ length src) c s.within;
            appended = subst (λ k. Appended C (crlf (take k src)) t.write_buf_ep b') c s.appended;
            ended = subst (λ k. (k ≡ length src) ⊎ (b'.head ≡ C)) c s.ended;
          },
        )
    | inr o ↦ absurd (h (ap (written C t) (loop-Overruns src 0 t.write_buf_ep v o)))
  ]

  -- A `write` to a valid buffer goes beyond it exactly if some newline of the text comes where the
  -- characters before it, with their carriage returns, leave one byte free.
  pub write-Overruns :
      (src : List ℕ) (t : Terminal)
      → IsValid C t.write_buf_ep
      → (write C src t ≡ none) ↔ Overruns C t.write_buf_ep.head src
  unfolding write
  write-Overruns src t v = (
    λ h. elim (loop_cases src 0 t.write_buf_ep v) [
      | inl (n, b', e, s) ↦ cc (h, ap (written C t) e)
      | inr o ↦ o
    ],
    λ o. ap (written C t) (loop-Overruns src 0 t.write_buf_ep v o),
  )
