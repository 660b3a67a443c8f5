-- ===== src/Skip/Bounds.antt =====
-- Discarding bytes ends, and takes as many as it should (StateDatabase/net_utils.cpp).
use state_db.Base.{
  ℕ, suc, ◌+◌, ◌-◌, ◌≤◌, ◌<◌, ◌≡◌, refl, Bool, true, false, ◌==◌, arith, Bool-cases, inl, inr,
}
use state_db.Skip.{
  smaller, Skipping, reading, finished, async_skip_impl, async_skip_bytes, Skips, started,
  completed,
}

-- While a read goes on: what is left and what was taken add up, the buffer has room for what is asked
-- for, which is no more than what is left, and every completion took something.
pub record IsReading (n steps taken left asked size : ℕ) : Type 0 where
  pub total : left + taken ≡ n
  pub buffer : size ≡ smaller n
  pub room : asked ≤ size
  pub modest : asked ≤ left
  pub lively : 0 < n → 0 < asked
  pub counted : steps + left ≤ n

-- At the end they add up too, and nothing is left unless the read failed.
pub record IsFinished (n steps taken : ℕ) (failed : Bool) (left : ℕ) : Type 0 where
  pub total : left + taken ≡ n
  pub whole : failed ≡ false → left ≡ 0
  pub counted : steps ≤ suc n

abbrev pub IsSkip : ℕ → ℕ → ℕ → Skipping → Type 0
IsSkip n steps taken (reading left asked size) = IsReading n steps taken left asked size
IsSkip n steps taken (finished failed left) = IsFinished n steps taken failed left

smaller_room : (m n : ℕ) → m ≤ n → smaller m ≤ smaller n
smaller_room m n h = ground arith

smaller_modest : (n : ℕ) → smaller n ≤ n
smaller_modest n = ground arith

smaller_pos : (n : ℕ) → 0 < n → 0 < smaller n
smaller_pos n h = ground arith

impl-IsSkip :
    (n steps taken left asked size transferred : ℕ) (failed : Bool)
    → IsSkip n steps taken (reading left asked size)
    → transferred ≤ asked
    → (failed ≡ false → 0 < asked → 0 < transferred)
    → IsSkip n (suc steps) (taken + transferred) (async_skip_impl left size failed transferred)
unfolding async_skip_impl
impl-IsSkip n steps taken left asked size transferred true i h k = record {
  total = omega (arith, i.total, i.modest, h);
  whole = λ e. absurd (cc);
  counted = omega (arith, i.counted);
}
impl-IsSkip n steps taken left asked size transferred false i h k =
    elim (Bool-cases ((left - transferred) == 0)) [
      | inl z ↦
          let none_left : left - transferred ≡ 0 = ground (arith, z) in
          rw z (record {
            total = omega (arith, i.total, i.modest, h);
            whole = λ e. none_left;
            counted = omega (arith, i.counted);
          })
      | inr z ↦
          let some_left : 0 < left - transferred = ground (arith, z) in
          let took : 0 < transferred = k refl (i.lively (omega (arith, some_left, i.total))) in
          rw z (record {
            total = omega (arith, i.total, i.modest, h);
            buffer = i.buffer;
            room = rw i.buffer (smaller_room (left - transferred) n (omega (arith, i.total)));
            modest = smaller_modest (left - transferred);
            lively = λ p. smaller_pos (left - transferred) some_left;
            counted = omega (arith, i.counted, took, some_left);
          })
    ]

-- From the start of a skip of `n` bytes, whatever the reads deliver: what was taken and what is left
-- make up `n`, a read asks for no more than is left and than the buffer holds, the handler is called
-- without an error only where all the `n` bytes were taken, and there are at most `n + 1` completions.
pub Skips-IsSkip :
    (n steps taken : ℕ) (s : Skipping) → Skips n steps taken s → IsSkip n steps taken s
unfolding async_skip_bytes
Skips-IsSkip n _ _ _ started = record {
  total = omega arith;
  buffer = refl;
  room = omega arith;
  modest = smaller_modest n;
  lively = smaller_pos n;
  counted = omega arith;
}
Skips-IsSkip n _ _ _ (completed steps taken left asked size transferred failed run h k) =
    impl-IsSkip n steps taken left asked size transferred failed
      (Skips-IsSkip n steps taken (reading left asked size) run) h k
