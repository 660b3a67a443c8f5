-- ===== src/BigInt/Power.antt =====
-- `operator^` of two `bigint`s (StateDatabase/bigint.h), square and multiply. `none` is a product that
-- an `int` does not carry, or fuel that is used up.
use state_db.Base.{ℕ, zero, suc, Bool, true, false, Option, none, some, ◌==◌, if◌then◌else◌}
use state_db.BigInt.{BigInt, plus, is_zero, mod_int, div_int, of_int}
use state_db.BigInt.Product.{times}
use state_db.BigInt.Division.{then_some}
pub mod Loop
mod Examples

-- `if (b % 2) ans *= a`.
unfoldable pub take_bit : BigInt → BigInt → BigInt → Option BigInt
unfolding mod_int times
take_bit ans a b = if (mod_int b 2).1 == 0 then some ans else times ans a

-- One test of the `while` loop, where `rest` is the body with the rest of the loop.
abbrev pub power_step : Bool → BigInt → Option BigInt → Option BigInt
power_step true ans rest = some ans
power_step false ans rest = rest

unfoldable pub power_loop : ℕ → BigInt → BigInt → BigInt → Option BigInt
unfolding is_zero div_int times take_bit
power_loop zero ans a b = none
power_loop (suc fuel) ans a b = power_step (is_zero b) ans (
    then_some (take_bit ans a b)
      (λ ans'. then_some (times a a) (λ a'. power_loop fuel ans' a' (div_int b 2 plus))))

unfoldable pub power : ℕ → BigInt → BigInt → Option BigInt
unfolding of_int power_loop
power fuel m n = power_loop fuel (of_int 1 plus) m n
