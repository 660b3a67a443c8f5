-- ===== src/Skip.antt =====
-- Discarding bytes of a socket (StateDatabase/net_utils.h, net_utils.cpp, config.h). The socket is given
-- by the completions of its reads, and what is read is thrown away.
use state_db.Base.{
  ℕ, suc, ◌+◌, ◌-◌, ◌≤◌, ◌<◌, ◌≡◌, Bool, true, false, ◌||◌, ltb, ◌==◌, if◌then◌else◌,
}
pub mod Bounds
mod Examples

-- STATEDB_NET_TRASH_BUF_SIZE
abbrev pub trash_size : ℕ
trash_size = 256

-- `std::min` of it and the count of the bytes left.
abbrev pub smaller : ℕ → ℕ
smaller n = if ltb n trash_size then n else trash_size

-- A read of `asked` bytes that goes on, into a buffer of `size` bytes, or the handler that was called
-- with its error, once the buffer was deleted. `left` counts the bytes that were not read.
pub data Skipping : Type 0 where
  reading : (left asked size : ℕ) → Skipping
  finished : (failed : Bool) (left : ℕ) → Skipping

unfoldable pub async_skip_impl : ℕ → ℕ → Bool → ℕ → Skipping
async_skip_impl n size failed transferred =
    let left = n - transferred in
    if failed || (left == 0) then finished failed left else reading left (smaller left) size

unfoldable pub async_skip_bytes : ℕ → Skipping
async_skip_bytes n = let size = smaller n in reading n size size

-- `skip_bytes`: one read, of which the count is returned; `read_some` is the socket's.
abbrev pub skip_bytes : (ℕ → ℕ) → ℕ → ℕ
skip_bytes read_some n = read_some (smaller n)

-- The states after `steps` completions that delivered `taken` bytes. A read delivers no more than was
-- asked for, and something where it succeeds and anything was asked for.
pub data Skips (n : ℕ) : ℕ → ℕ → Skipping → Type 0 where
  started : Skips n 0 0 (async_skip_bytes n)
  completed :
      (steps taken left asked size transferred : ℕ)
      → (failed : Bool) → Skips n steps taken (reading left asked size)
      → transferred ≤ asked
      → (failed ≡ false → 0 < asked → 0 < transferred)
      → Skips n (suc steps) (taken + transferred) (async_skip_impl left size failed transferred)
