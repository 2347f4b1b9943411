-- ===== src/Iso9660/Record/Scan.antt =====
-- `scan_name` on a system use area.
use genode_world.Prelude.{
  ℕ, zero, suc, ◌+◌, ◌≤◌, ◌<◌, ◌≡◌, refl, ap, ◌∙◌, if◌then◌else◌, List, [], ◌∷◌, Option, none, some,
  length, drop, get_elem?-drop, drop-drop, drop-append_length, arith,
}
use genode_world.Iso9660.Run.{done, byte, read}
use genode_world.Iso9660.Record.{scan_name}
use genode_world.Iso9660.Record.Layout.{Field, encode_fields, fields_size, is_nm}

-- Reading at a position is reading in what lies behind it.
pub byte-drop : (p k : ℕ) (mem : List ℕ) → byte mem (p + k) ≡ byte (drop p mem) k
byte-drop p k mem = ap read (get_elem?-drop p k mem refl)

pub byte-at :
    (p k : ℕ) (mem xs : List ℕ) {b : ℕ}
    → drop p mem ≡ xs
    → byte xs k ≡ done b
    → byte mem (p + k) ≡ done b
byte-at p k mem xs e h = byte-drop p k mem ∙ ap (λ t. byte t k) e ∙ h

pub byte-here :
    (p : ℕ) (mem xs : List ℕ) {b : ℕ} → drop p mem ≡ xs → byte xs 0 ≡ done b → byte mem p ≡ done b
byte-here p mem xs e h = ap read (get_elem?-drop p 0 mem (omega arith)) ∙ ap (λ t. byte t 0) e ∙ h

-- The position of the first entry `NM`.
abbrev pub nm_position : ℕ → List Field → Option ℕ
nm_position rr [] = none
nm_position rr (f ∷ fs) = if is_nm f then some rr else nm_position (rr + (length f.payload + 5)) fs

pub skip_field :
    (f : Field) (fs : List Field) (rest : List ℕ)
    → drop (length f.payload + 5) (encode_fields (f ∷ fs) rest) ≡ encode_fields fs rest
skip_field f fs rest =
    drop-drop 5 (length f.payload) (encode_fields (f ∷ fs) rest) (omega arith)
    ∙ drop-append_length f.payload (encode_fields fs rest)

pub scan_name-encode_fields :
    (fuel : ℕ) (mem : List ℕ) (end rr : ℕ) (fs : List Field) (rest : List ℕ)
    → drop rr mem ≡ encode_fields fs rest
    → rr + fields_size fs ≡ end
    → 3 ≤ length rest
    → fields_size fs < fuel
    → scan_name fuel mem end rr ≡ done (nm_position rr fs)
unfolding scan_name
scan_name-encode_fields zero mem end rr fs rest e s l h = absurd (omega arith)
scan_name-encode_fields (suc fuel) mem end rr [] (a ∷ b ∷ c ∷ rest) e s l h =
    let third : byte mem (rr + 2) ≡ done c = byte-at rr 2 mem _ e refl in rw third (ground arith)
scan_name-encode_fields (suc fuel) mem end rr [] [] e s l h = absurd (omega arith)
scan_name-encode_fields (suc fuel) mem end rr [] (a ∷ []) e s l h = absurd (omega arith)
scan_name-encode_fields (suc fuel) mem end rr [] (a ∷ b ∷ []) e s l h = absurd (omega arith)
scan_name-encode_fields (suc fuel) mem end rr (f ∷ fs) rest e s l h =
    let len : byte mem (rr + 2) ≡ done (length f.payload + 5) = byte-at rr 2 mem _ e refl in
    let low : byte mem rr ≡ done f.first = byte-here rr mem _ e refl in
    let high : byte mem (rr + 1) ≡ done f.second = byte-at rr 1 mem _ e refl in
    let following : drop (rr + (length f.payload + 5)) mem ≡ encode_fields fs rest =
      drop-drop rr (length f.payload + 5) mem refl
      ∙ ap (drop (length f.payload + 5)) e
      ∙ skip_field f fs rest in
    let ih =
      scan_name-encode_fields fuel mem end (rr + (length f.payload + 5)) fs rest following
        (omega arith) l (omega arith) in
    ground (arith, len, low, high, ih)
