-- ===== src/Iso9660/Record/Locate.antt =====
-- `locate` on the records of a directory as the standards lay them out.
use genode_world.Prelude.{
  ℕ, zero, suc, ◌+◌, ◌≤◌, ◌<◌, ◌≡◌, refl, List, [], ◌∷◌, none, some, length, drop, arith,
}
use genode_world.Iso9660.Run.{done, byte}
use genode_world.Iso9660.Record.{locate, next}
use genode_world.Iso9660.Record.Layout.{
  Entry, encode, encode_all, entry_length, Fits, AllFit, find_entry,
}
use genode_world.Iso9660.Record.Scan.{byte-here}
use genode_world.Iso9660.Record.Names.{file_name-entry, next-at}

-- `next` on a record in front of another one, and in front of the zero that ends the directory.
pub next-some :
    (mem : List ℕ) (pos : ℕ) (e d : Entry) (rest : List ℕ)
    → drop pos mem ≡ encode e (encode d rest)
    → Fits e
    → next mem pos ≡ done (some (pos + entry_length e))
unfolding next
next-some mem pos e d rest at fit =
    let len : byte mem pos ≡ done (entry_length e) = byte-here pos mem _ at refl in
    let behind = next-at mem pos e (encode d rest) at in
    let following : byte mem (pos + entry_length e) ≡ done (entry_length d) =
      byte-here (pos + entry_length e) mem _ behind refl in
    ground (arith, len, following)

next-none :
    (mem : List ℕ) (pos : ℕ) (e : Entry) (rest : List ℕ)
    → drop pos mem ≡ encode e (0 ∷ rest)
    → Fits e
    → 2 ≤ length rest
    → next mem pos ≡ done none
unfolding next
next-none mem pos e rest at fit more =
    let len : byte mem pos ≡ done (entry_length e) = byte-here pos mem _ at refl in
    let behind = next-at mem pos e (0 ∷ rest) at in
    let following : byte mem (pos + entry_length e) ≡ done 0 =
      byte-here (pos + entry_length e) mem _ behind refl in
    ground (arith, len, following)

-- On records that are laid out by the standards one behind the other, each shorter than 256 bytes
-- and with names of at most 31 characters, and followed by three bytes more of which the first is
-- zero, `locate` finds the position of the first record with the name, or none if there is no such
-- record.
pub locate-encode_all :
    (fuel : ℕ) (mem : List ℕ) (pos : ℕ) (level : List ℕ) (e : Entry) (es : List Entry)
    (rest : List ℕ)
    → drop pos mem ≡ encode_all (e ∷ es) (0 ∷ rest)
    → AllFit (e ∷ es)
    → 2 ≤ length rest
    → length es < fuel
    → locate fuel mem pos level ≡ done (find_entry level pos (e ∷ es))
unfolding locate
locate-encode_all zero mem pos level e es rest at fit more h = absurd (omega arith)
locate-encode_all (suc fuel) mem pos level e [] rest at fit more h =
    let name = file_name-entry mem pos e (0 ∷ rest) at fit.0 (omega arith) in
    ground (arith, name, next-none mem pos e rest at fit.0 more)
locate-encode_all (suc fuel) mem pos level e (d ∷ es) rest at fit more h =
    let tail = encode_all es (0 ∷ rest) in
    let name = file_name-entry mem pos e (encode d tail) at fit.0 (omega arith) in
    let behind = next-at mem pos e (encode d tail) at in
    ground (
      arith,
      name,
      next-some mem pos e d tail at fit.0,
      locate-encode_all fuel mem (pos + entry_length e) level d es rest behind fit.1 more,
    )
