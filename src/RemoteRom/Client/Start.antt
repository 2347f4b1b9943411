-- ===== src/RemoteRom/Client/Start.antt =====
-- `start_new_content`: the receiver is at the start of an empty, large enough dataspace.
use genode_world.Prelude.{
  ℕ, ◌≤◌, ◌<◌, ◌^◌, ◌≡◌, refl, sym, ap, ◌∙◌, inl, inr, some, true, false, List, arith, length, take,
  length-replicate, Bool-cases, ltb, min, if-true,
}
use genode_world.RemoteRom.Cksum.{cksum}
use genode_world.RemoteRom.Client.{
  Client, Side, left, right, other, RomModule, base, grow, bytes_at, fg_bytes, start_new_content,
}
use genode_world.RemoteRom.Client.Frame.{position}
use genode_world.RemoteRom.Client.Memory.{
  bytes_at-store_at, bytes_at-store_at-other, bg-store_at, store_at_rest,
}
use genode_world.RemoteRom.Client.Holds.{Holds}

-- The background dataspace is large enough, and the other one is left alone.
record Grown (size : ℕ) (m g : RomModule) : Type 0 where
  bg : g.bg ≡ m.bg
  hash : g.bg_hash ≡ m.bg_hash
  room : size ≤ length (bytes_at m.bg g)
  kept : bytes_at (other m.bg) g ≡ bytes_at (other m.bg) m

grow-Grown : (size : ℕ) (m : RomModule) → Grown size m (grow size m)
unfolding grow
grow-Grown size m = elim (Bool-cases (ltb (length (bytes_at m.bg m)) size)) [
  | inl e ↦ rw e (record {
    bg = bg-store_at m.bg _ m;
    hash = (store_at_rest m.bg _ m).1;
    room = rw bytes_at-store_at (omega (arith, length-replicate {A = ℕ} size 0));
    kept = bytes_at-store_at-other m.bg _ m;
  })
  | inr e ↦ rw e (record { bg = refl; hash = refl; room = ground arith; kept = refl })
]

bytes_at_fields :
    (sd : Side) (hash size : ℕ) (m : RomModule)
    → bytes_at sd (record m { bg_hash = hash; bg_size = size }) ≡ bytes_at sd m
bytes_at_fields left hash size m = refl
bytes_at_fields right hash size m = refl

module _ (content : List ℕ) (c : Client) (frontend : c.receiver.registered ≡ true)
    (small : length content < 2 ^ 32) (nonempty : 0 < length content) where
  abbrev grown : RomModule
  grown = grow (length content) (record c.rom_module { bg_hash = cksum content })

  g : Grown (length content) (record c.rom_module { bg_hash = cksum content }) grown
  g = grow-Grown (length content) (record c.rom_module { bg_hash = cksum content })

  abbrev started_client : Client
  started_client = record c {
    rom_module = record grown { bg_size = length content };
    receiver = record c.receiver {
      write_ptr = some grown.bg;
      buf_size = length content;
      offset = 0;
      window_id = 0;
      window_length = 0;
      next_packet_id = 0;
      omit_nack = false;
      scheduled = false;
    };
  }

  start_lem : start_new_content (cksum content) (length content) c ≡ started_client
  unfolding start_new_content base
  start_lem = if-true _ _ _ frontend

  -- The announcement of a content of 1 to 2^32 - 1 bytes establishes the invariant of a client
  -- that has a frontend, whatever state it was in.
  pub start-Holds :
      Holds content c.rom_module.bg (start_new_content (cksum content) (length content) c)
  start-Holds = rw start_lem (record {
    frame = record {
      small = small;
      frontend = frontend;
      size = refl;
      start = refl;
      inside = nonempty;
      next_in = omega arith;
      len = inl (refl, refl, refl);
    };
    ptr = ap some g.bg;
    filled = record {
      room = rw (bytes_at_fields c.rom_module.bg grown.bg_hash (length content) grown) g.room;
      prefix =
          ap (λ k. take k (bytes_at c.rom_module.bg started_client.rom_module)) none_yet
          ∙ sym (ap (λ k. take k content) none_yet);
      hash = g.hash;
      size = refl;
    };
    side = inl (ground (arith, nonempty), g.bg);
  })
    where
      none_yet : min (position started_client.receiver) (length content) ≡ 0
      none_yet = omega arith

  pub start_kept :
      bytes_at
        (other c.rom_module.bg)
        (start_new_content (cksum content) (length content) c).rom_module
      ≡ fg_bytes c.rom_module
  start_kept = rw start_lem (
      bytes_at_fields (other c.rom_module.bg) grown.bg_hash (length content) grown
      ∙ g.kept
      ∙ bytes_at_fields (other c.rom_module.bg) (cksum content) c.rom_module.bg_size c.rom_module)

  pub start_position : position (start_new_content (cksum content) (length content) c).receiver ≡ 0
  start_position = rw start_lem

  pub start_tx : (start_new_content (cksum content) (length content) c).tx ≡ c.tx
  start_tx = rw start_lem
