-- ===== src/Dtypes/Loaded.antt =====
-- Whatever `load_from` accepts is kept well, for each implementor (StateDatabase/dtypes.cpp).
use state_db.Base.{
  ℕ, zero, suc, ◌+◌, ◌≤◌, ◌<◌, ◌≡◌, refl, List, [], ◌∷◌, ltb, length, take, arith, Bool-cases, inl,
  inr, length-take, ap, ◌∙◌, sym, ltb→lt,
}
use state_db.Dtypes.{
  Run, finished, Implementor, none_type, blob, string, fixed, require_at_least, copy, load_blob,
  load_string, get_string_mxsz, text_length, load_from, get_size, load_to, word_mod,
}
use state_db.Dtypes.RoundTrip.{
  IsLoaded, header, load_string-IsLoaded, load_blob-IsLoaded, load_blob_short, load_blob_overrun,
}

same_count :
    (m n : ℕ) (v w : List ℕ)
    → ◌≡◌ {A = Run (ℕ × List ℕ)} (finished (m, v)) (finished (n, w))
    → m ≡ n
same_count m n v w e = ground arith

same_value :
    (m n : ℕ) (v w : List ℕ)
    → ◌≡◌ {A = Run (ℕ × List ℕ)} (finished (m, v)) (finished (n, w))
    → v ≡ w
same_value m n v w e = ground arith

carry_over :
    (i : Implementor) (from : List ℕ) (m n : ℕ) (v w : List ℕ)
    → load_from i from ≡ finished (m, v)
    → load_from i from ≡ finished (n, w)
    → IsLoaded i m v
    → IsLoaded i n w
carry_over i from m n v w e f l =
    rw (← same_count m n v w (sym e ∙ f), ← same_value m n v w (sym e ∙ f)) l

take-take : (k : ℕ) (xs : List ℕ) → take k (take k xs) ≡ take k xs
take-take zero xs = refl
take-take (suc k) [] = refl
take-take (suc k) (x ∷ xs) = ap (◌∷◌ x) (take-take k xs)

fixed-IsLoaded : (k : ℕ) (from : List ℕ) → k ≤ length from → IsLoaded (fixed k) k (take k from)
unfolding get_size load_to load_from require_at_least copy
fixed-IsLoaded k from h = record {
  sized = refl;
  kept = omega (arith, length-take k from);
  written = λ room p. ground (arith, length-take k from, take-take k from);
  again = ground (arith, length-take k from, take-take k from);
}

none-IsLoaded : IsLoaded none_type 0 []
unfolding get_size load_to load_from
none-IsLoaded = record { sized = refl; kept = refl; written = λ room p. refl; again = refl }

fixed_long :
    (k n : ℕ) (from v : List ℕ) → load_from (fixed k) from ≡ finished (n, v) → k ≤ length from
unfolding load_from require_at_least
fixed_long k n from v e = ground arith

fixed_loads :
    (k : ℕ) (from : List ℕ) → k ≤ length from → load_from (fixed k) from ≡ finished (k, take k from)
unfolding load_from require_at_least
fixed_loads k from h = ground arith

empty_string : (n : ℕ) (v : List ℕ) → load_from string [] ≡ finished (n, v) → ⊥
unfolding load_from load_string get_string_mxsz text_length
empty_string n v e = ground arith

blob_cases :
    (a b c d : ℕ) (rest : List ℕ) (n : ℕ) (v : List ℕ)
    → header a b c d < word_mod
    → load_from blob (a ∷ b ∷ c ∷ d ∷ rest) ≡ finished (n, v)
    → IsLoaded blob n v
blob_cases a b c d rest n v small e = elim (Bool-cases (ltb (header a b c d + 4) word_mod)) [
  | inl h ↦ elim (Bool-cases (ltb (length rest) (header a b c d))) [
    | inl short ↦ cc (load_blob_short a b c d rest (ltb→lt _ _ h) (ltb→lt _ _ short))
    | inr enough ↦
        let (f, l) = load_blob-IsLoaded a b c d rest (ltb→lt _ _ h) (ground arith) in
        carry_over blob (a ∷ b ∷ c ∷ d ∷ rest) (header a b c d + 4) n
          (a ∷ b ∷ c ∷ d ∷ take (header a b c d) rest) v f e l
  ]
  | inr h ↦ cc (load_blob_overrun a b c d rest small (ground arith))
]

-- Every element is the value of a byte.
abbrev pub AreBytes : List ℕ → Type 0
AreBytes [] = Unit {0}
AreBytes (c ∷ cs) = (c < 256) × AreBytes cs

short_blob :
    (from : List ℕ) (n : ℕ) (v : List ℕ)
    → length from < 4
    → load_from blob from ≡ finished (n, v)
    → ⊥
unfolding load_from load_blob require_at_least
short_blob from n v h e = ground arith

-- Bytes that `load_from` accepts are kept so that `get_size` tells how many there are, `load_to`
-- writes them to any buffer with room for them, and loading those again gives the same.
pub load_from-IsLoaded :
    (i : Implementor) (from : List ℕ) (n : ℕ) (value : List ℕ)
    → AreBytes from
    → load_from i from ≡ finished (n, value)
    → IsLoaded i n value
unfolding load_from
load_from-IsLoaded none_type from n v h e = carry_over none_type from 0 n [] v refl e none-IsLoaded
load_from-IsLoaded string [] n v h e = absurd (empty_string n v e)
load_from-IsLoaded string (c ∷ cs) n v h e =
    let (m, w, f, le, l) = load_string-IsLoaded (c ∷ cs) (omega arith) in
    carry_over string (c ∷ cs) m n w v f e l
load_from-IsLoaded (fixed k) from n v h e =
    let long = fixed_long k n from v e in
    carry_over (fixed k) from k n (take k from) v (fixed_loads k from long) e
      (fixed-IsLoaded k from long)
load_from-IsLoaded blob [] n v h e = absurd (short_blob [] n v (omega arith) e)
load_from-IsLoaded blob (a ∷ []) n v h e = absurd (short_blob (a ∷ []) n v (omega arith) e)
load_from-IsLoaded blob (a ∷ b ∷ []) n v h e = absurd (short_blob (a ∷ b ∷ []) n v (omega arith) e)
load_from-IsLoaded blob (a ∷ b ∷ c ∷ []) n v h e =
    absurd (short_blob (a ∷ b ∷ c ∷ []) n v (omega arith) e)
load_from-IsLoaded blob (a ∷ b ∷ c ∷ d ∷ rest) n v h e = blob_cases a b c d rest n v (omega arith) e
