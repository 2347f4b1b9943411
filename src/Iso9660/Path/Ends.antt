-- ===== src/Iso9660/Path/Ends.antt =====
-- `locate_root` and `file_info` end, whatever bytes are on the disc.
use genode_world.Prelude.{
  ℕ, zero, suc, ◌+◌, ◌^◌, ◌≤◌, ◌<◌, ◌≡◌, ◌≢◌, refl, ap, ◌∙◌, ◌==◌, true, false, List, [], ◌∷◌,
  Option, none, some, take, leb, length, get_elem?, get_elem?-drop, arith, inl, inr, Bool-cases,
  ℕ_discrete,
}
use genode_world.Iso9660.Run.{
  Run, done, unfinished, ◌>>=◌, byte, slice, Gives, Gives-ends, Gives-bind, ends-Gives, bind_ends,
  read_ends,
}
use genode_world.Iso9660.Sector.{Block, sector, through_float}
use genode_world.Iso9660.Sector.Disc.{through_float_exact}
use genode_world.Iso9660.Sector.Total.{sector_ends, sector-done, sector-none}
use genode_world.Iso9660.Record.{blk_nr}
use genode_world.Iso9660.Record.Fields.{AllBytes}
use genode_world.Iso9660.Path.Total.{YieldsBytes, HasBytes, search_level-HasBytes, nr_ends}
use genode_world.Iso9660.Path.{
  root_record, at_dir, Walk, search_level, max_blocks, walk, Token, ident, separator, result,
  file_info, Scanner, scanner_policy_file, locate_root, root_size, cached_root, root_dir, or_throw,
}

get_elem?-take :
    (n : ℕ) (xs : List ℕ) (i b : ℕ) → get_elem? (take n xs) i ≡ some b → get_elem? xs i ≡ some b
get_elem?-take zero xs i b h = cc
get_elem?-take (suc n) [] i b h = cc
get_elem?-take (suc n) (x ∷ xs) zero b h = h
get_elem?-take (suc n) (x ∷ xs) (suc i) b h = get_elem?-take n xs i b h

slice-AllBytes : (mem : List ℕ) (at n : ℕ) → AllBytes mem → Gives (slice mem at n) AllBytes
unfolding slice
slice-AllBytes mem at n ok = elim (Bool-cases (leb (at + n) (length mem))) [
  | inl y ↦ rw y (λ i b h. ok (at + i) b (get_elem?-drop at i mem refl ∙ get_elem?-take n _ i b h))
  | inr k ↦ rw k tt
]

-- The root record, if it was located, consists of bytes.
abbrev pub IsRoot : Option (List ℕ) → Type 0
IsRoot none = Unit
IsRoot (some root) = AllBytes root

module _ (block : Block) (bytes : YieldsBytes block) where
  walk-HasBytes :
      (root : List ℕ) (ts : List Token) (w : Walk)
      → AllBytes root
      → HasBytes w
      → Gives (walk block root ts w) HasBytes
  unfolding walk
  walk-HasBytes root [] w root_ok ok = ok
  walk-HasBytes root (separator ∷ ts) w root_ok ok = walk-HasBytes root ts w root_ok ok
  walk-HasBytes root (ident text ∷ ts) w root_ok ok =
      let level : List ℕ = take 127 text in
      Gives-bind (at_dir blk_nr root w.packet w.dir)
        (λ current. search_level (suc max_blocks) block root level current 0 w >>= λ w'.
          walk block root ts w')
        _ HasBytes (Gives-ends _ (nr_ends root w.packet root_ok ok w.dir))
        (λ current _.
          Gives-bind (search_level (suc max_blocks) block root level current 0 w)
            (λ w'. walk block root ts w') HasBytes HasBytes
            (search_level-HasBytes block root level current bytes root_ok (suc max_blocks) 0 w ok
              (omega arith) (omega arith))
            (λ w' ok'. walk-HasBytes root ts w' root_ok ok'))

  result_ends : (w : Walk) → result w ≢ unfinished
  unfolding result
  result_ends w = ground arith

  pub file_info_ends :
      (scan : Scanner) (root path : List ℕ)
      → AllBytes root
      → file_info scan block root path ≢ unfinished
  unfolding file_info
  file_info_ends scan root path root_ok =
      let start : Walk = record { packet = []; dir = root_record; blk_nr = 0; data_length = 0 } in
      bind_ends (walk block root (scan scanner_policy_file path) start) result
        (ends-Gives _ HasBytes (walk-HasBytes root _ start root_ok (λ i b h. cc)))
        (λ w _. result_ends w)

  -- A disc that ends at a block below 2^24.
  module _ (limit : ℕ) (low : limit < 2 ^ 24) (end : block limit 1 ≡ none) where
    -- What is done for the type of a volume descriptor.
    abbrev primary : List ℕ → Run (Option (List ℕ))
    primary sec = slice sec 156 root_size >>= λ record_bytes. done (some record_bytes)

    abbrev on_kind : ℕ → ℕ → List ℕ → ℕ → Run (Option (List ℕ))
    on_kind fuel nr sec kind = elim (kind == 0x01) [
      | true ↦ primary sec
      | false ↦ elim (kind == 0xff) [ true ↦ done none | false ↦ locate_root fuel block (nr + 1) ]
    ]

    primary-IsRoot : (sec : List ℕ) → AllBytes sec → Gives (primary sec) IsRoot
    primary-IsRoot sec ok =
        Gives-bind (slice sec 156 root_size) (λ record_bytes. done (some record_bytes)) AllBytes
          IsRoot (slice-AllBytes sec 156 root_size ok) (λ root h. h)

    on_kind-IsRoot :
        (fuel nr : ℕ) (sec : List ℕ) (kind : ℕ)
        → AllBytes sec
        → Gives (locate_root fuel block (nr + 1)) IsRoot
        → Gives (on_kind fuel nr sec kind) IsRoot
    on_kind-IsRoot fuel nr sec kind ok later = elim (Bool-cases (kind == 0x01)) [
      | inl y ↦ rw (y, on_kind) (primary-IsRoot sec ok)
      | inr n ↦
          rw (n, on_kind)
            (elim (Bool-cases (kind == 0xff)) [
              | inl y' ↦ rw (y', on_kind) tt
              | inr n' ↦ rw (n', on_kind) later
            ])
    ]

    pub locate_root-IsRoot :
        (fuel nr : ℕ) → nr ≤ limit → limit < nr + fuel → Gives (locate_root fuel block nr) IsRoot
    unfolding locate_root
    locate_root-IsRoot zero nr h k = absurd (omega arith)
    locate_root-IsRoot (suc fuel) nr h k = elim (ℕ_discrete nr limit) [
      | yes e ↦
          let read_ : block (through_float nr) (through_float 1) ≡ none =
            ap (λ n. block n (through_float 1)) (through_float_exact nr (omega arith))
            ∙ ap (block nr) (through_float_exact 1 (omega arith))
            ∙ ap (λ n. block n 1) e
            ∙ end in
          rw (sector-none block nr 1 read_) tt
      | no n ↦
          Gives-bind (sector block nr 1) (λ sec. byte sec 0 >>= λ kind. on_kind fuel nr sec kind) _
            IsRoot (Gives-ends _ (sector_ends block nr 1))
            (λ sec e.
              Gives-bind (byte sec 0) (λ kind. on_kind fuel nr sec kind) _ IsRoot
                (Gives-ends _ (read_ends (get_elem? sec 0)))
                (λ kind _.
                  on_kind-IsRoot fuel nr sec kind (bytes _ _ sec (sector-done block nr 1 e))
                    (locate_root-IsRoot fuel (nr + 1) (omega arith) (omega arith))))
    ]

    or_throw-AllBytes : (root : Option (List ℕ)) → IsRoot root → Gives (or_throw root) AllBytes
    or_throw-AllBytes none h = tt
    or_throw-AllBytes (some root) h = h

    -- The root record is located within as many rounds as the disc has blocks.
    pub cached_root-AllBytes :
        (root : Option (List ℕ))
        → 16 ≤ limit
        → IsRoot root
        → Gives (cached_root limit block root) AllBytes
    unfolding cached_root root_dir
    cached_root-AllBytes (some root) h ok = ok
    cached_root-AllBytes none h ok =
        Gives-bind (locate_root limit block 16) or_throw IsRoot AllBytes
          (locate_root-IsRoot limit 16 h (omega arith)) or_throw-AllBytes
