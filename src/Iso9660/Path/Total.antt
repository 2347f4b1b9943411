-- ===== src/Iso9660/Path/Total.antt =====
-- `file_info` and `locate_root` end, whatever bytes are on the disc.
use genode_world.Prelude.{
  ℕ, zero, suc, ◌+◌, ◌^◌, ◌<◌, ◌≡◌, ◌≢◌, ◌==◌, ltb, Bool, true, false, List, Option, none, some,
  length, sub_size, arith, inl, inr, Bool-cases,
}
use genode_world.Iso9660.Run.{
  Run, done, throw, file_not_found, unfinished, ◌>>=◌, Gives, Gives-ends, Gives-bind,
}
use genode_world.Iso9660.Sector.{Block, sector, to_blk}
use genode_world.Iso9660.Sector.Disc.{to_blk_lem}
use genode_world.Iso9660.Sector.Total.{sector_ends, sector-done}
use genode_world.Iso9660.Record.{locate, blk_nr, data_length, directory}
use genode_world.Iso9660.Record.Total.{locate_ends}
use genode_world.Iso9660.Record.Fields.{
  AllBytes, blk_nr_ends, data_length_ends, data_length_small, directory_ends,
}
use genode_world.Iso9660.Path.{
  Dir, root_record, in_packet, at_dir, Walk, enter, entered, search_level, max_blocks,
}

-- What a block session yields are bytes.
abbrev pub YieldsBytes : Block → Type 0
YieldsBytes block = (nr count : ℕ) (mem : List ℕ) → block nr count ≡ some mem → AllBytes mem

abbrev pub HasBytes : Walk → Type 0
HasBytes w = AllBytes w.packet

entered-HasBytes :
    (packet : List ℕ) (pos : ℕ) (w : Walk) (nr : ℕ) (is_dir : Bool) (len : ℕ)
    → AllBytes packet
    → HasBytes (entered packet pos w nr is_dir len)
entered-HasBytes packet pos w nr true len h = h
entered-HasBytes packet pos w nr false len h = h

abbrev with_dir : List ℕ → ℕ → Walk → ℕ → Bool → Run Walk
with_dir packet pos w nr is_dir =
    data_length packet pos >>= λ len. done (entered packet pos w nr is_dir len)

abbrev with_nr : List ℕ → ℕ → Walk → ℕ → Run Walk
with_nr packet pos w nr = directory packet pos >>= λ is_dir. with_dir packet pos w nr is_dir

enter-HasBytes :
    (packet : List ℕ) (pos : ℕ) (w : Walk) → AllBytes packet → Gives (enter packet pos w) HasBytes
unfolding enter
enter-HasBytes packet pos w h =
    Gives-bind (blk_nr packet pos) (λ nr. with_nr packet pos w nr) _ HasBytes
      (Gives-ends _ (blk_nr_ends packet pos))
      (λ nr _.
        Gives-bind (directory packet pos) (λ is_dir. with_dir packet pos w nr is_dir) _ HasBytes
          (Gives-ends _ (directory_ends packet pos))
          (λ is_dir _.
            Gives-bind (data_length packet pos) (λ len. done (entered packet pos w nr is_dir len)) _
              HasBytes (Gives-ends _ (data_length_ends packet pos))
              (λ len _. entered-HasBytes packet pos w nr is_dir len h)))

module _ (root packet : List ℕ) (root_bytes : AllBytes root) (packet_bytes : AllBytes packet) where
  len_ends : (dir : Dir) → at_dir data_length root packet dir ≢ unfinished
  len_ends root_record = data_length_ends root 0
  len_ends (in_packet pos) = data_length_ends packet pos

  pub nr_ends : (dir : Dir) → at_dir blk_nr root packet dir ≢ unfinished
  nr_ends root_record = blk_nr_ends root 0
  nr_ends (in_packet pos) = blk_nr_ends packet pos

  len_small : (dir : Dir) (n : ℕ) → at_dir data_length root packet dir ≡ done n → n < 2 ^ 32
  len_small root_record n h = data_length_small root 0 n root_bytes h
  len_small (in_packet pos) n h = data_length_small packet pos n packet_bytes h

module _ (block : Block) (root level : List ℕ) (current : ℕ) where
  -- The stages of a round of `search_level`.
  abbrev after_miss : ℕ → ℕ → List ℕ → Walk → ℕ → Run Walk
  after_miss fuel i packet w len = elim (i == sub_size (to_blk len) 1) [
    | true ↦ throw file_not_found
    | false ↦ search_level fuel block root level current (i + 1) (record w { packet = packet })
  ]

  abbrev located : ℕ → ℕ → List ℕ → Walk → Option ℕ → Run Walk
  located fuel i packet w tmp = elim tmp [
    | some pos ↦ enter packet pos w
    | none ↦ at_dir data_length root packet w.dir >>= λ len. after_miss fuel i packet w len
  ]

  abbrev in_sector : ℕ → ℕ → Walk → List ℕ → Run Walk
  in_sector fuel i w packet =
      locate (suc (length packet)) packet 0 level >>= λ tmp. located fuel i packet w tmp

  abbrev in_extent : ℕ → ℕ → Walk → ℕ → Run Walk
  in_extent fuel i w len = elim (ltb i (to_blk len)) [
    | false ↦ done w
    | true ↦ sector block (current + i) 1 >>= λ packet. in_sector fuel i w packet
  ]

  module _ (bytes : YieldsBytes block) (root_bytes : AllBytes root) where
    -- What the rounds behind this one give.
    abbrev Later : ℕ → ℕ → Walk → Type 0
    Later fuel i w =
        (packet : List ℕ)
        → AllBytes packet
        → Gives (search_level fuel block root level current (i + 1) (record w { packet = packet }))
            HasBytes

    after_miss-HasBytes :
        (fuel i : ℕ) (packet : List ℕ) (w : Walk) (len : ℕ)
        → AllBytes packet
        → Later fuel i w
        → Gives (after_miss fuel i packet w len) HasBytes
    after_miss-HasBytes fuel i packet w len ok later =
        elim (i == sub_size (to_blk len) 1)
          as (λ b.
            Gives
              (elim b as (λ x. Run Walk) [
                | true ↦ throw file_not_found
                | false ↦
                    search_level fuel block root level current (i + 1)
                      (record w { packet = packet })
              ])
              HasBytes) [ true ↦ tt | false ↦ later packet ok ]

    located-HasBytes :
        (fuel i : ℕ) (packet : List ℕ) (w : Walk) (tmp : Option ℕ)
        → AllBytes packet
        → Later fuel i w
        → Gives (located fuel i packet w tmp) HasBytes
    located-HasBytes fuel i packet w (some pos) ok later = enter-HasBytes packet pos w ok
    located-HasBytes fuel i packet w none ok later =
        Gives-bind (at_dir data_length root packet w.dir) (λ len. after_miss fuel i packet w len) _
          HasBytes (Gives-ends _ (len_ends root packet root_bytes ok w.dir))
          (λ len _. after_miss-HasBytes fuel i packet w len ok later)

    in_sector-HasBytes :
        (fuel i : ℕ) (w : Walk)
        → Later fuel i w
        → Gives (sector block (current + i) 1 >>= λ packet. in_sector fuel i w packet) HasBytes
    in_sector-HasBytes fuel i w later =
        Gives-bind (sector block (current + i) 1) (λ packet. in_sector fuel i w packet) _ HasBytes
          (Gives-ends _ (sector_ends block (current + i) 1))
          (λ packet e.
            let ok : AllBytes packet = bytes _ _ packet (sector-done block (current + i) 1 e) in
            Gives-bind (locate (suc (length packet)) packet 0 level)
              (λ tmp. located fuel i packet w tmp) _ HasBytes
              (Gives-ends _
                (locate_ends (suc (length packet)) packet 0 level (omega arith) (omega arith)))
              (λ tmp _. located-HasBytes fuel i packet w tmp ok later))

    in_extent-HasBytes :
        (fuel i : ℕ) (w : Walk) (len : ℕ)
        → HasBytes w
        → len < 2 ^ 32
        → (i < max_blocks → Later fuel i w)
        → Gives (in_extent fuel i w len) HasBytes
    in_extent-HasBytes fuel i w len ok small later = elim (Bool-cases (ltb i (to_blk len))) [
      | inl y ↦
          let below : i < max_blocks = ground (arith, to_blk_lem len (omega arith)) in
          rw (y, in_extent) (in_sector-HasBytes fuel i w (later below))
      | inr n ↦ rw (n, in_extent) ok
    ]

    pub search_level-HasBytes :
        (fuel i : ℕ) (w : Walk)
        → HasBytes w
        → max_blocks < i + fuel
        → 0 < fuel
        → Gives (search_level fuel block root level current i w) HasBytes
    unfolding search_level
    search_level-HasBytes zero i w ok h k = absurd (omega arith)
    search_level-HasBytes (suc fuel) i w ok h k =
        Gives-bind (at_dir data_length root w.packet w.dir) (λ len. in_extent fuel i w len) _
          HasBytes (Gives-ends _ (len_ends root w.packet root_bytes ok w.dir))
          (λ len e.
            in_extent-HasBytes fuel i w len ok (len_small root w.packet root_bytes ok w.dir len e)
              (λ below packet ok'.
                search_level-HasBytes fuel (i + 1) (record w { packet = packet }) ok' (omega arith)
                  (omega arith)))
