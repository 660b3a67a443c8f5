-- ===== src/Object/Bigints.antt =====
-- The implementor of bigint reads back what it writes (StateDatabase/dtypes.cpp).
use state_db.Base.{
  ℕ, zero, suc, ◌+◌, ◌≤◌, ◌≡◌, refl, none, some, List, [], ◌∷◌, ◌++◌, length, take, arith, ap,
  Option-cases, inl, inr, length-append,
}
use state_db.BigInt.{BigInt}
use state_db.BigInt.Text.{to_string, read}
use state_db.BigInt.Text.RoundTrip.{to_string_nonempty}
use state_db.BigInt.Text.Read.{AreNonzero, to_string-AreNonzero, read_again}
use state_db.Dtypes.{
  Run, finished, insufficient, unknown_type, overrun, stray, require_at_least, copy, then_run,
  get_string_mxsz, text_length,
}
use state_db.Object.{Storage, number, number_read, load_bigint, store_bigint}

text_length-zero : (cs : List ℕ) → AreNonzero cs → text_length (cs ++ 0 ∷ []) ≡ length cs
unfolding text_length
text_length-zero [] h = refl
text_length-zero (c ∷ cs) h = ground (arith, text_length-zero cs h.1)

take_before : (cs ds : List ℕ) → take (length cs) (cs ++ ds) ≡ cs
take_before [] ds = refl
take_before (c ∷ cs) ds = ap (◌∷◌ c) (take_before cs ds)

take_whole : (n : ℕ) (cs : List ℕ) → length cs ≡ n → take n cs ≡ cs
take_whole zero [] h = refl
take_whole zero (c ∷ cs) h = absurd (omega arith)
take_whole (suc n) [] h = absurd (omega arith)
take_whole (suc n) (c ∷ cs) h = ap (◌∷◌ c) (take_whole n cs (omega arith))

-- A text with a zero behind it is found by `get_string_mxsz`.
get_string_mxsz-zero :
    (cs : List ℕ)
    → AreNonzero cs
    → get_string_mxsz (cs ++ 0 ∷ []) ≡ finished (cs ++ 0 ∷ [], length cs)
unfolding get_string_mxsz
get_string_mxsz-zero cs h = ground (arith, text_length-zero cs h, length-append {0} cs (0 ∷ []))

-- The text of a number is written to any buffer with room for it and a zero.
pub store_bigint_lem :
    (room : ℕ) (b : BigInt)
    → length (to_string b) + 1 ≤ room
    → store_bigint room b ≡ finished (to_string b ++ 0 ∷ [])
unfolding store_bigint require_at_least copy
store_bigint_lem room b h =
    let cs = to_string b in
    let size = length-append {0} cs (0 ∷ []) in
    ground (arith, size, take_whole (length cs + 1) (cs ++ 0 ∷ []))

loaded_number :
    (cs : List ℕ) (n m : ℕ) (st : Storage)
    → number_read n (read cs) ≡ finished (m, st)
    → (b : BigInt) × (read cs ≡ some b) × (st ≡ number b)
loaded_number cs n m st e = elim (Option-cases (read cs)) [
  | inl f ↦ absurd (refuse n m st (rw f at e))
  | inr (b, f) ↦ (b, f, accept n m b st (rw f at e))
]
  where
    refuse : (n m : ℕ) (st : Storage) → number_read n none ≡ finished (m, st) → ⊥
    refuse n m st e = cc

    accept :
        (n m : ℕ) (b : BigInt) (st : Storage)
        → number_read n (some b) ≡ finished (m, st)
        → st ≡ number b
    accept n m b st e = ground arith

found_number :
    (r : Run (List ℕ × ℕ)) (m : ℕ) (st : Storage)
    → then_run r (λ (src, n). number_read n (read (take n src))) ≡ finished (m, st)
    → (cs : List ℕ) × (b : BigInt) × (read cs ≡ some b) × (st ≡ number b)
found_number (finished (src, n)) m st e =
    let (b, f, g) = loaded_number (take n src) n m st e in (take n src, b, f, g)
found_number insufficient m st e = absurd (cc)
found_number unknown_type m st e = absurd (cc)
found_number overrun m st e = absurd (cc)
found_number stray m st e = absurd (cc)

enough :
    {A : Type 0} (n k : ℕ) (r : Run A) (a : A)
    → require_at_least n k r ≡ finished a
    → r ≡ finished a
unfolding require_at_least
enough n k r a e = ground arith

-- What `load_from` of a bigint keeps is the number of some text.
pub load_bigint_text :
    (from : List ℕ) (m : ℕ) (st : Storage)
    → load_bigint from ≡ finished (m, st)
    → (cs : List ℕ) × (b : BigInt) × (read cs ≡ some b) × (st ≡ number b)
unfolding load_bigint
load_bigint_text from m st e =
    found_number (get_string_mxsz from) m st (enough (length from) 2 _ (m, st) e)

-- The text that is written for such a number is loaded again.
pub load_bigint-to_string :
    (cs : List ℕ) (b : BigInt)
    → read cs ≡ some b
    → load_bigint (to_string b ++ 0 ∷ []) ≡ finished (length (to_string b), number b)
unfolding load_bigint require_at_least
load_bigint-to_string cs b e =
    let t = to_string b in
    ground (
      arith,
      length-append {0} t (0 ∷ []),
      to_string_nonempty b,
      get_string_mxsz-zero t (to_string-AreNonzero b),
      take_before t (0 ∷ []),
      read_again cs b e,
    )
