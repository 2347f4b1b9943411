-- ===== src/SshServer/Buffer.antt =====
-- `Util::Buffer` of src/server/ssh_server/util.h, for any capacity.
use genode_world.Prelude.{
  ℕ, ◌+◌, ◌-◌, ◌≤◌, ◌<◌, suc, zero, ltb, leb, if◌then◌else◌, List, [], ◌∷◌, ◌++◌, Option, none,
  some, length, set, take, drop, ◌≡◌, refl, sym, ap, ◌∙◌, arith, length-set, length-take,
  length-drop,
}
use genode_world.Prelude.{if-true, if-false, append-nil, append_assoc, length-append}

-- The array with its bytes, and the two positions.
pub record Buffer : Type 0 where
  pub data_ : List ℕ
  pub head : ℕ
  pub tail : ℕ

unfoldable pub read_avail : Buffer → ℕ
read_avail b = if ltb b.tail b.head then b.head - b.tail else 0

unfoldable pub write_avail : ℕ → Buffer → ℕ
write_avail C b = if leb b.head C then C - b.head else 0

-- The bytes that are read at `content ()`: `read_avail ()` many.
unfoldable pub text : Buffer → List ℕ
text b = take (read_avail b) (drop b.tail b.data_)

-- There is no check: none if the byte is written beyond the array.
unfoldable pub append : ℕ → ℕ → Buffer → Option Buffer
append C c b =
    if ltb b.head C
    then some (record b { data_ = set b.data_ b.head c; head = suc b.head })
    else none

abbrev pub consume : ℕ → Buffer → Buffer
consume n b = record b { tail = b.tail + n }

abbrev pub reset : Buffer → Buffer
reset b = record b { head = 0; tail = 0 }

-- The array has its size, and the positions are in order and within it.
pub record IsValid (C : ℕ) (b : Buffer) : Type 0 where
  pub sized : length b.data_ ≡ C
  pub ordered : b.tail ≤ b.head
  pub bounded : b.head ≤ C

pub read_avail_lem : (b : Buffer) → read_avail b ≡ b.head - b.tail
unfolding read_avail
read_avail_lem b = ground arith

pub write_avail_lem : (C : ℕ) (b : Buffer) → write_avail C b ≡ C - b.head
unfolding write_avail
write_avail_lem C b = ground arith

pub length-text : (C : ℕ) (b : Buffer) → IsValid C b → length (text b) ≡ read_avail b
unfolding text
length-text C b v = omega (
  arith,
  length-take (read_avail b) (drop b.tail b.data_),
  length-drop b.tail b.data_,
  read_avail_lem b,
  v.sized,
  v.ordered,
  v.bounded,
)

pub text_of_none : (b : Buffer) → read_avail b ≡ 0 → text b ≡ []
unfolding text
text_of_none b h = ap (λ n. take n (drop b.tail b.data_)) h

pub reset-IsValid : (C : ℕ) (b : Buffer) → IsValid C b → IsValid C (reset b)
reset-IsValid C b v = record { sized = v.sized; ordered = omega arith; bounded = omega arith }

pub text-reset : (b : Buffer) → text (reset b) ≡ []
unfolding text read_avail
text-reset b = refl

-- A byte that is written behind the bytes up to `i` follows those from `t` on.
set_behind :
    {A : Type 0} (xs : List A) (t k i : ℕ) (v : A)
    → t + k ≡ i
    → i < length xs
    → take (suc k) (drop t (set xs i v)) ≡ take k (drop t xs) ++ v ∷ []
set_behind [] t k i v e h = absurd (omega arith)
set_behind (x ∷ xs) zero zero zero v e h = refl
set_behind (x ∷ xs) zero zero (suc i) v e h = absurd (omega arith)
set_behind (x ∷ xs) zero (suc k) zero v e h = absurd (omega arith)
set_behind (x ∷ xs) zero (suc k) (suc i) v e h =
    ap (λ ys. x ∷ ys) (set_behind xs zero k i v (omega arith) (omega arith))
set_behind (x ∷ xs) (suc t) k zero v e h = absurd (omega arith)
set_behind (x ∷ xs) (suc t) k (suc i) v e h = set_behind xs t k i v (omega arith) (omega arith)

-- What `append` does to a buffer that has room.
pub record Appended (C : ℕ) (bs : List ℕ) (b b' : Buffer) : Type 0 where
  pub valid : IsValid C b'
  pub bytes : text b' ≡ text b ++ bs
  pub head_moves : b'.head ≡ b.head + length bs

pub append-Appended :
    (C c : ℕ) (b : Buffer)
    → IsValid C b
    → b.head < C
    → (b' : Buffer) × (append C c b ≡ some b') × Appended C (c ∷ []) b b'
unfolding append text
append-Appended C c b v h =
    let b' : Buffer = record b { data_ = set b.data_ b.head c; head = suc b.head } in
    let ra : read_avail b' ≡ suc (b.head - b.tail) =
      let r = read_avail_lem b' in let o = v.ordered in omega arith in
    let e : text b' ≡ text b ++ c ∷ [] =
      ap (λ n. take n (drop b.tail (set b.data_ b.head c))) ra
      ∙ set_behind b.data_ b.tail (b.head - b.tail) b.head c (let o = v.ordered in omega arith)
          (let s = v.sized in omega arith)
      ∙ ap (λ n. take n (drop b.tail b.data_) ++ c ∷ []) (sym (read_avail_lem b)) in
    (
      b',
      if-true (ltb b.head C) (some b') none (ground arith),
      record {
        valid = record {
          sized = length-set b.data_ b.head c ∙ v.sized;
          ordered = let o = v.ordered in omega arith;
          bounded = omega arith;
        };
        bytes = e;
        head_moves = omega arith;
      },
    )

pub append_full : (C c : ℕ) (b : Buffer) → C ≤ b.head → append C c b ≡ none
unfolding append
append_full C c b h = if-false (ltb b.head C) _ none (ground arith)

pub Appended-refl : (C : ℕ) (b : Buffer) → IsValid C b → Appended C [] b b
Appended-refl C b v = record {
  valid = v;
  bytes = sym (append-nil (text b));
  head_moves = omega arith;
}

pub Appended-trans :
    (C : ℕ) (bs cs : List ℕ) (b b' b'' : Buffer)
    → Appended C bs b b'
    → Appended C cs b' b''
    → Appended C (bs ++ cs) b b''
Appended-trans C bs cs b b' b'' h h' = record {
  valid = h'.valid;
  bytes = h'.bytes ∙ ap (λ xs. xs ++ cs) h.bytes ∙ append_assoc (text b) bs cs;
  head_moves = omega (arith, h.head_moves, h'.head_moves, length-append bs cs);
}
