-- ===== src/RemoteRom/Window.antt =====
-- The division of a content into windows of at most 900 packets of 1350 bytes:
-- `Content_sender::_calculate_window_size` of src/lib/remote_rom/backend/nic_ip/server.cc.
use genode_world.Prelude.{ℕ, ◌+◌, ◌*◌, ◌/◌, ◌%◌, ◌≤◌, ◌<◌, ◌≡◌, min, arith, if◌then◌else◌, ◌==◌}

-- `MAX_WINDOW_SIZE`
abbrev pub max_window_size : ℕ
max_window_size = 900

unfoldable pub calculate_window_size : ℕ → ℕ
calculate_window_size size = min 900 (size / 1350 + (if size % 1350 == 0 then 0 else 1))

-- A window reaches at least to the end of the data, or is full.
pub window_size_covers :
    (size : ℕ) → calculate_window_size size < 900 → size ≤ calculate_window_size size * 1350
unfolding calculate_window_size
window_size_covers size h = ground arith

-- It has no packet without data.
pub window_size_tight : (size i : ℕ) → i < calculate_window_size size → i * 1350 < size
unfolding calculate_window_size
window_size_tight size i h = ground arith

pub window_size_full : (size : ℕ) → 1213650 < size → calculate_window_size size ≡ 900
unfolding calculate_window_size
window_size_full size h = ground arith

pub window_size_le : (size : ℕ) → calculate_window_size size ≤ 900
unfolding calculate_window_size
window_size_le size = ground arith

pub window_size_pos : (size : ℕ) → 0 < size → 0 < calculate_window_size size
unfolding calculate_window_size
window_size_pos size h = ground arith
