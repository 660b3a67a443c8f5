-- ===== src/Skip/Examples.antt =====
-- A skip of 300 bytes (StateDatabase/net_utils.cpp).
use state_db.Base.{◌≡◌, refl, false, arith}
use state_db.Skip.{
  finished, async_skip_bytes, async_skip_impl, Skips, skip_bytes, started, completed,
}
use state_db.Skip.Bounds.{IsSkip, Skips-IsSkip}

-- The first read fills the buffer, and the second takes the rest.
skipped : Skips 300 2 300 (finished false 0)
unfolding async_skip_bytes async_skip_impl
skipped =
    completed 1 256 44 44 256 44 false
      (completed 0 0 300 256 256 256 false started (omega arith) (λ e p. omega arith)) (omega arith)
      (λ e p. omega arith)

Skips-IsSkip_example : IsSkip 300 2 300 (finished false 0)
Skips-IsSkip_example = Skips-IsSkip 300 2 300 (finished false 0) skipped

-- `skip_bytes` of 300 bytes takes no more than the buffer holds.
skip_bytes_once : skip_bytes (λ asked. asked) 300 ≡ 256
skip_bytes_once = refl
