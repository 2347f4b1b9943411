-- ===== src/SshServer/Terminal/Delivery.antt =====
-- The client's writes and the turns of the loop of src/server/ssh_server in any order.
use genode_world.Prelude.{
  ℕ, suc, ◌<◌, List, [], ◌∷◌, ◌++◌, map, Option, none, some, ◌≡◌, ◌≢◌, refl, sym, ap, ◌∙◌, arith,
  subst, length, take, append-nil, append_assoc,
}
use genode_world.SshServer.Buffer.{text}
use genode_world.SshServer.Terminal.{Terminal, Ssh, loop, write}
use genode_world.SshServer.Terminal.Write.{one, crlf, write-crlf}
use genode_world.SshServer.Terminal.Broadcast.{IsReliable, AllOpen}
use genode_world.SshServer.Terminal.Stream.{waiting, Serves, Turn, loop-Turn}

pub data Action : Type 0 where
  client_writes : List ℕ → Action
  thread_loops : Action

-- What the client was told to be written, the channels and the terminal.
pub record State (Channel : Type 0) : Type 0 where
  pub accepted : List ℕ
  pub channels : List (Option Channel)
  pub terminal : Terminal

pub crlf-append : (xs ys : List ℕ) → crlf (xs ++ ys) ≡ crlf xs ++ crlf ys
crlf-append [] ys = refl
crlf-append (x ∷ xs) ys =
    ap (λ zs. one x ++ zs) (crlf-append xs ys) ∙ sym (append_assoc (one x) (crlf xs) (crlf ys))

module _ (C : ℕ) {Channel : Type 0} (ssh : Ssh Channel) where
  abbrev pub after_write : List ℕ → State Channel → Option (ℕ × Terminal) → Option (State Channel)
  after_write src s none = none
  after_write src s (some (n, t)) =
      some (record s { accepted = s.accepted ++ take n src; terminal = t })

  abbrev pub after_loop : State Channel → List (Option Channel) × Terminal → State Channel
  after_loop s (cs, t) = record s { channels = cs; terminal = t }

  abbrev pub act : Action → State Channel → Option (State Channel)
  act (client_writes src) s = after_write src s (write C src s.terminal)
  act thread_loops s = some (after_loop s (loop ssh s.channels s.terminal))

  abbrev pub then_run :
      (State Channel → Option (State Channel)) → Option (State Channel) → Option (State Channel)
  then_run f none = none
  then_run f (some s) = f s

  unfoldable pub run : List Action → State Channel → Option (State Channel)
  run [] s = some s
  run (a ∷ later) s = then_run (run later) (act a s)

module _ (C : ℕ) {Channel : Type 0} (ssh : Ssh Channel) (received : Channel → List ℕ)
    (reliable : IsReliable ssh received) where
  -- The channels got the first part of what the client has written, and the rest is waiting.
  pub record InOrder (start : List Channel) (s : State Channel) : Type 0 where
    pub cs : List Channel
    pub so_far : List ℕ
    pub channels : s.channels ≡ map some cs
    pub all_open : AllOpen ssh received reliable cs
    pub some_channel : (0 < length cs) × (length cs < 4294967296)
    pub serves : Serves C (length cs) s.terminal
    pub bytes : map received cs ≡ map (λ c. received c ++ so_far) start
    pub stream : so_far ++ waiting s.terminal ≡ crlf s.accepted

  got_more :
      (start cs cs' : List Channel) (xs ys : List ℕ)
      → map received cs ≡ map (λ c. received c ++ xs) start
      → map received cs' ≡ map (λ c. received c ++ ys) cs
      → map received cs' ≡ map (λ c. received c ++ (xs ++ ys)) start
  got_more [] [] [] xs ys h h' = refl
  got_more [] [] (c' ∷ cs') xs ys h h' = cc
  got_more [] (c ∷ cs) cs' xs ys h h' = cc
  got_more (b ∷ bs) [] cs' xs ys h h' = cc
  got_more (b ∷ bs) (c ∷ cs) [] xs ys h h' = cc
  got_more (b ∷ bs) (c ∷ cs) (c' ∷ cs') xs ys h h' =
      let e : received c ≡ received b ++ xs = cc in
      let e' : received c' ≡ received c ++ ys = cc in
      let l : map received cs ≡ map (λ c. received c ++ xs) bs = cc in
      let l' : map received cs' ≡ map (λ c. received c ++ ys) cs = cc in
      let first : received c' ≡ received b ++ (xs ++ ys) =
        e' ∙ ap (λ r. r ++ ys) e ∙ append_assoc (received b) xs ys in
      ap (λ r. r ∷ map received cs') first
      ∙ ap (λ r. (received b ++ (xs ++ ys)) ∷ r) (got_more bs cs cs' xs ys l l')

  same_length :
      (cs cs' : List Channel) (f : Channel → List ℕ)
      → map received cs' ≡ map f cs
      → length cs' ≡ length cs
  same_length [] [] f h = refl
  same_length [] (c ∷ cs') f h = cc
  same_length (c ∷ cs) [] f h = cc
  same_length (c ∷ cs) (d ∷ cs') f h = ap suc (same_length cs cs' f cc)

  any-Turn :
      (cs : List Channel) (t : Terminal)
      → (0 < length cs) × (length cs < 4294967296)
      → Serves C (length cs) t
      → AllOpen ssh received reliable cs
      → (cs' : List Channel) × (t' : Terminal) × (x : List ℕ) × Turn C ssh received reliable
          (loop ssh (map some cs) t)
          cs
          cs'
          t
          t'
          x
  any-Turn [] t (p, small) s o = absurd (omega arith)
  any-Turn (c ∷ cs) t (p, small) s o = loop-Turn C ssh received reliable c cs t s o small

  -- A turn of the loop.
  pub loop-InOrder :
      (start : List Channel) (s : State Channel)
      → InOrder start s
      → (s' : State Channel) × (after_loop C ssh s (loop ssh s.channels s.terminal) ≡ s')
        × (s'.accepted ≡ s.accepted)
        × InOrder start s'
        × (text s'.terminal.write_buf_pthread ≡ [])
        × (text s.terminal.write_buf_pthread ≡ [] → waiting s'.terminal ≡ [])
  loop-InOrder start s i =
      let (cs', t', x, u) = any-Turn i.cs s.terminal i.some_channel i.serves i.all_open in
      let n = same_length i.cs cs' (λ c. received c ++ x) u.got.bytes in
      (
        record s { channels = map some cs'; terminal = t' },
        ap (λ cs. after_loop C ssh s (loop ssh cs s.terminal)) i.channels
            ∙ ap (after_loop C ssh s) u.result,
        refl,
        record {
          cs = cs';
          so_far = i.so_far ++ x;
          channels = refl;
          all_open = u.got.still;
          some_channel = let (p, q) = i.some_channel in (omega arith, omega arith);
          serves = subst (λ k. Serves C k t') (sym n) u.serves;
          bytes = got_more start i.cs cs' i.so_far x i.bytes u.got.bytes;
          stream =
              append_assoc i.so_far x (waiting t') ∙ ap (λ xs. i.so_far ++ xs) u.stream ∙ i.stream;
        },
        u.emptied,
        u.flushed,
      )

  write-InOrder :
      (start : List Channel) (src : List ℕ) (s : State Channel)
      → InOrder start s
      → write C src s.terminal ≢ none
      → (s' : State Channel) × (after_write C ssh src s (write C src s.terminal) ≡ some s')
        × InOrder start s'
  write-InOrder start src s i h =
      let (n, b', w) = write-crlf C src s.terminal i.serves.ep h in
      (
        _,
        ap (after_write C ssh src s) w.result,
        record {
          cs = i.cs;
          so_far = i.so_far;
          channels = i.channels;
          all_open = i.all_open;
          some_channel = i.some_channel;
          serves = record {
            ep = w.appended.valid;
            pthread = i.serves.pthread;
            attached = i.serves.attached;
          };
          bytes = i.bytes;
          stream =
              ap (λ xs. i.so_far ++ (text s.terminal.write_buf_pthread ++ xs)) w.appended.bytes
              ∙ ap (λ xs. i.so_far ++ xs)
                  (sym (
                    append_assoc (text s.terminal.write_buf_pthread) (text s.terminal.write_buf_ep)
                      (crlf (take n src))))
              ∙ sym (append_assoc i.so_far (waiting s.terminal) (crlf (take n src)))
              ∙ ap (λ xs. xs ++ crlf (take n src)) i.stream
              ∙ sym (crlf-append s.accepted (take n src));
        },
      )

  act-InOrder :
      (start : List Channel) (a : Action) (s : State Channel)
      → InOrder start s
      → act C ssh a s ≢ none
      → (s' : State Channel) × (act C ssh a s ≡ some s') × InOrder start s'
  act-InOrder start (client_writes src) s i h =
      write-InOrder start src s i (λ e. h (ap (after_write C ssh src s) e))
  act-InOrder start thread_loops s i h =
      let (s1, e, same, i1, gone, flushed) = loop-InOrder start s i in (s1, ap some e, i1)

  pub run-InOrder :
      (start : List Channel) (actions : List Action) (s s' : State Channel)
      → InOrder start s
      → run C ssh actions s ≡ some s'
      → InOrder start s'
  unfolding run
  run-InOrder start [] s s' i h = let e : s ≡ s' = cc in subst (InOrder start) e i
  run-InOrder start (a ∷ later) s s' i h =
      let f = then_run C ssh (run C ssh later) in
      let (s1, e, i1) = act-InOrder start a s i (λ z. cc (sym h ∙ ap f z)) in
      run-InOrder start later s1 s' i1 (sym (ap f e) ∙ h)

  starts :
      (cs : List Channel) (t : Terminal)
      → (0 < length cs) × (length cs < 4294967296)
      → AllOpen ssh received reliable cs
      → Serves C (length cs) t
      → waiting t ≡ []
      → InOrder cs (record { accepted = []; channels = map some cs; terminal = t })
  starts cs t p o s w = record {
    cs = cs;
    so_far = [];
    channels = refl;
    all_open = o;
    some_channel = p;
    serves = s;
    bytes = nothing cs;
    stream = w;
  }
    where
      nothing : (ds : List Channel) → map received ds ≡ map (λ c. received c ++ []) ds
      nothing [] = refl
      nothing (d ∷ ds) =
          ap (λ r. r ∷ map received ds) (sym (append-nil (received d)))
          ∙ ap (λ r. (received d ++ []) ∷ r) (nothing ds)

  -- The client writes and the loop turns in any order, for a terminal with fewer than 2^32
  -- channels, at least one, all open and reliable, that starts with nothing to send. If no write
  -- went beyond the buffer, two more turns give every channel, once and in order, all that `write`
  -- reported as written, with a carriage return before each newline.
  pub run-delivers :
      (cs : List Channel) (t : Terminal)
      → (0 < length cs) × (length cs < 4294967296)
      → AllOpen ssh received reliable cs
      → Serves C (length cs) t
      → waiting t ≡ []
      → (actions : List Action) (s : State Channel)
      → run C ssh actions (record { accepted = []; channels = map some cs; terminal = t }) ≡ some s
      → (s' : State Channel) × (cs' : List Channel) × (run C ssh
            (thread_loops ∷ thread_loops ∷ [])
            s
          ≡ some s')
        × (s'.channels ≡ map some cs')
        × (map received cs' ≡ map (λ c. received c ++ crlf s.accepted) cs)
  unfolding run
  run-delivers cs t p o sv w actions s h =
      let i = run-InOrder cs actions _ s (starts cs t p o sv w) h in
      let (s1, e1, a1, i1, gone, f1) = loop-InOrder cs s i in
      let (s2, e2, a2, i2, gone', f2) = loop-InOrder cs s1 i1 in
      let all : i2.so_far ≡ crlf s.accepted =
        sym (append-nil i2.so_far)
        ∙ ap (λ xs. i2.so_far ++ xs) (sym (f2 gone))
        ∙ i2.stream
        ∙ ap crlf (a2 ∙ a1) in
      (
        s2,
        i2.cs,
        ap (λ r. then_run C ssh (run C ssh (thread_loops ∷ [])) (some r)) e1 ∙ ap some e2,
        i2.channels,
        i2.bytes ∙ ap (λ xs. map (λ c. received c ++ xs) cs) all,
      )
