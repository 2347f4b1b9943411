-- ===== src/Iso9660/Record/Fields.antt =====
-- What the fields of a record in memory can be.
use genode_world.Prelude.{
  ℕ, ◌+◌, ◌*◌, ◌^◌, ◌<◌, ◌≡◌, ◌≢◌, List, some, get_elem?, arith, inl, inr, Option-cases,
}
use genode_world.Iso9660.Run.{Run, done, unfinished, ◌>>=◌, bind_ends, bind-done}
use genode_world.Iso9660.Record.{value_16, value_32, blk_nr, data_length, directory}

-- The bytes of a memory are bytes.
abbrev pub AllBytes : List ℕ → Type 0
AllBytes mem = (i b : ℕ) → get_elem? mem i ≡ some b → b < 256

value_16_ends : (mem : List ℕ) (i : ℕ) → value_16 mem i ≢ unfinished
value_16_ends mem i =
    ground (arith, Option-cases (get_elem? mem i), Option-cases (get_elem? mem (i + 1)))

abbrev high_of : List ℕ → ℕ → ℕ → Run ℕ
high_of mem i a = value_16 mem (i + 2) >>= λ b. done (a + 2 ^ 16 * b)

value_32_ends : (mem : List ℕ) (i : ℕ) → value_32 mem i ≢ unfinished
value_32_ends mem i =
    bind_ends (value_16 mem i) (λ a. high_of mem i a) (value_16_ends mem i)
      (λ a _.
        bind_ends (value_16 mem (i + 2)) (λ b. done (a + 2 ^ 16 * b)) (value_16_ends mem (i + 2))
          (λ b _ e. cc))

value_16_small : (mem : List ℕ) (i n : ℕ) → AllBytes mem → value_16 mem i ≡ done n → n < 2 ^ 16
value_16_small mem i n bytes h = elim (Option-cases (get_elem? mem i)) [
  | inl e ↦ ground (arith, e)
  | inr (a, e) ↦ elim (Option-cases (get_elem? mem (i + 1))) [
    | inl e' ↦ ground (arith, e, e')
    | inr (b, e') ↦ ground (arith, e, e', bytes i a, bytes (i + 1) b)
  ]
]

value_32_small : (mem : List ℕ) (i n : ℕ) → AllBytes mem → value_32 mem i ≡ done n → n < 2 ^ 32
value_32_small mem i n bytes h =
    let low = bind-done (value_16 mem i) (λ a. high_of mem i a) h in
    let high = bind-done (value_16 mem (i + 2)) (λ b. done (low.0 + 2 ^ 16 * b)) low.2 in
    ground (
      arith,
      high.2,
      value_16_small mem i low.0 bytes low.1,
      value_16_small mem (i + 2) high.0 bytes high.1,
    )

pub blk_nr_ends : (mem : List ℕ) (pos : ℕ) → blk_nr mem pos ≢ unfinished
unfolding blk_nr
blk_nr_ends mem pos = value_32_ends mem (pos + 2)

pub data_length_ends : (mem : List ℕ) (pos : ℕ) → data_length mem pos ≢ unfinished
unfolding data_length
data_length_ends mem pos = value_32_ends mem (pos + 10)

pub data_length_small :
    (mem : List ℕ) (pos n : ℕ) → AllBytes mem → data_length mem pos ≡ done n → n < 2 ^ 32
unfolding data_length
data_length_small mem pos n bytes h = value_32_small mem (pos + 10) n bytes h

pub directory_ends : (mem : List ℕ) (pos : ℕ) → directory mem pos ≢ unfinished
unfolding directory
directory_ends mem pos = ground (arith, Option-cases (get_elem? mem (pos + 25)))
