-- ===== src/Message/Flags.antt =====
-- The flags of a message (StateDatabase/flags.h).
use Prim.Native.Nat.{bit_and, bit_or}
use state_db.Base.{
  ℕ, zero, suc, ◌-◌, ◌*◌, ◌/◌, ◌%◌, ◌^◌, ◌<◌, ◌≡◌, refl, Bool, true, false, List, [], ◌∷◌, ◌&&◌,
  ◌==◌, if◌then◌else◌, length, set, arith,
}
use state_db.Dtypes.Loaded.{AreBytes}
use state_db.Message.{mask, byte_at, get_flag, set_flag}

all_below : ℕ → (ℕ → Bool) → Bool
all_below zero p = true
all_below (suc n) p = p n && all_below n p

all_below_lem : (n : ℕ) (p : ℕ → Bool) (x : ℕ) → all_below n p ≡ true → x < n → p x ≡ true
unfolding all_below
all_below_lem zero p x h lt = absurd (omega arith)
all_below_lem (suc n) p x h lt = ground (arith, all_below_lem n p x)

abbrev bit_of : ℕ → ℕ → ℕ
bit_of c i = if bit_and c (2 ^ (7 - i)) == 0 then 0 else 1

-- One byte: what a flag reads after a flag was set or cleared.
abbrev agrees : ℕ → ℕ → ℕ → Bool
agrees c i j =
    (bit_of (bit_or c (2 ^ (7 - i))) j == (if i == j then 1 else bit_of c j))
    && (bit_of (bit_and c (255 - 2 ^ (7 - i))) j == (if i == j then 0 else bit_of c j))

table : all_below 256 (λ c. all_below 8 (λ i. all_below 8 (λ j. agrees c i j))) ≡ true
unfolding all_below
table = refl

agrees-true : (c i j : ℕ) → c < 256 → i < 8 → j < 8 → agrees c i j ≡ true
agrees-true c i j h k l =
    all_below_lem 8 (λ j. agrees c i j) j
      (all_below_lem 8 (λ i. all_below 8 (λ j. agrees c i j)) i
        (all_below_lem 256 (λ c. all_below 8 (λ i. all_below 8 (λ j. agrees c i j))) c table h) k)
      l

byte_at-set :
    (cs : List ℕ) (n m x : ℕ)
    → n < length cs
    → byte_at (set cs n x) m ≡ (if n == m then x else byte_at cs m)
byte_at-set [] n m x h = absurd (omega arith)
byte_at-set (c ∷ cs) zero zero x h = refl
byte_at-set (c ∷ cs) zero (suc m) x h = ground arith
byte_at-set (c ∷ cs) (suc n) zero x h = ground arith
byte_at-set (c ∷ cs) (suc n) (suc m) x h = ground (arith, byte_at-set cs n m x)

byte_at-lt : (cs : List ℕ) (n : ℕ) → AreBytes cs → byte_at cs n < 256
byte_at-lt [] n h = omega arith
byte_at-lt (c ∷ cs) zero h = h.0
byte_at-lt (c ∷ cs) (suc n) h = byte_at-lt cs n h.1

-- A flag reads as it was set or cleared last, and setting or clearing it changes no other flag of
-- the field.
pub get_flag-set_flag :
    (i j : ℕ) (val : Bool) (cs : List ℕ)
    → AreBytes cs
    → i < 8 * length cs
    → get_flag j (set_flag i val cs) ≡ (if i == j then val else get_flag j cs)
unfolding get_flag set_flag
get_flag-set_flag i j true cs h k =
    let c = byte_at cs (i / 8) in
    ground (
      arith,
      byte_at-set cs (i / 8) (j / 8) (bit_or c (mask i)) (omega arith),
      agrees-true c (i % 8) (j % 8) (byte_at-lt cs (i / 8) h) (omega arith) (omega arith),
    )
get_flag-set_flag i j false cs h k =
    let c = byte_at cs (i / 8) in
    ground (
      arith,
      byte_at-set cs (i / 8) (j / 8) (bit_and c (255 - mask i)) (omega arith),
      agrees-true c (i % 8) (j % 8) (byte_at-lt cs (i / 8) h) (omega arith) (omega arith),
    )
