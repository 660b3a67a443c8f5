-- ===== src/Dtypes/RoundTrip.antt =====
-- What the implementors of the data types read, they write back (StateDatabase/dtypes.cpp).
use state_db.Base.{
  ℕ, zero, suc, ◌+◌, ◌-◌, ◌*◌, ◌≤◌, ◌<◌, ◌≡◌, refl, List, [], ◌∷◌, ◌++◌, ◌==◌, length, take, arith,
  Bool-cases, inl, inr, length-take, length-append, ap, ◌∙◌,
}
use state_db.Dtypes.{
  finished, insufficient, overrun, Implementor, blob, string, require_at_least, blob_size, copy,
  load_blob, text_length, get_string_mxsz, load_string, load_from, get_size, size_blob, size_string,
  store_blob, store_string, load_to, word_mod,
}

take_all : (xs : List ℕ) → take (length xs) xs ≡ xs
take_all [] = refl
take_all (x ∷ xs) = ap (◌∷◌ x) (take_all xs)

text_length-le : (xs : List ℕ) → text_length xs ≤ length xs
unfolding text_length
text_length-le [] = omega arith
text_length-le (x ∷ xs) = ground (arith, text_length-le xs)

-- The value of a string: its text and one zero behind it.
pub record IsText (n : ℕ) (value : List ℕ) : Type 0 where
  pub whole : length value ≡ suc n
  pub ends : text_length value ≡ n

cut-ends :
    (xs : List ℕ)
    → text_length xs < length xs
    → text_length (take (suc (text_length xs)) xs) ≡ text_length xs
unfolding text_length
cut-ends [] h = refl
cut-ends (x ∷ xs) h = ground (arith, cut-ends xs)

zero-ends :
    (k : ℕ) (xs : List ℕ)
    → k ≤ length xs
    → text_length xs ≡ length xs
    → text_length (take k xs ++ 0 ∷ []) ≡ k
unfolding text_length
zero-ends zero xs h e = refl
zero-ends (suc k) [] h e = absurd (omega arith)
zero-ends (suc k) (x ∷ xs) h e = ground (arith, zero-ends k xs)

copy_text :
    (n room : ℕ) (value : List ℕ)
    → IsText n value
    → suc n ≤ room
    → copy (suc n) room value ≡ finished value
unfolding copy
copy_text n room value t h = ground (arith, t.whole, take_all value)

-- What holds of a value that was loaded with this count: as many bytes as `get_size` says were
-- used and kept, `load_to` writes exactly these to any buffer with room for them, and loading them
-- again gives the same.
pub record IsLoaded (i : Implementor) (n : ℕ) (value : List ℕ) : Type 0 where
  pub sized : get_size i value ≡ finished n
  pub kept : length value ≡ n
  pub written : (room : ℕ) → n ≤ room → load_to i room value ≡ finished value
  pub again : load_from i value ≡ finished (n, value)

text-IsLoaded : (n : ℕ) (value : List ℕ) → IsText n value → IsLoaded string (suc n) value
unfolding get_size size_string load_to store_string load_from load_string get_string_mxsz
text-IsLoaded n value t = record {
  sized = ground (arith, t.whole, t.ends);
  kept = t.whole;
  written = λ room h. ground (arith, t.whole, t.ends, copy_text n room value t h);
  again = ground (arith, t.whole, t.ends, copy_text n (suc n) value t);
}

cut-IsText :
    (xs : List ℕ)
    → text_length xs < length xs
    → IsText (text_length xs) (take (suc (text_length xs)) xs)
cut-IsText xs h = record {
  whole = omega (arith, length-take (suc (text_length xs)) xs);
  ends = cut-ends xs h;
}

zero-IsText :
    (k : ℕ) (xs : List ℕ)
    → suc k ≡ length xs
    → text_length xs ≡ length xs
    → IsText k (take k xs ++ 0 ∷ [])
zero-IsText k xs h e = record {
  whole = omega (arith, length-append (take k xs) (0 ∷ []), length-take k xs);
  ends = zero-ends k xs (omega arith) e;
}

-- Loading a string from memory that is not empty succeeds, uses no byte behind the memory, and
-- what it keeps is written back and read again unchanged.
pub load_string-IsLoaded :
    (from : List ℕ)
    → 0 < length from
    → (n : ℕ) × (value : List ℕ) × (load_from string from ≡ finished (n, value))
      × (n ≤ length from)
      × IsLoaded string n value
unfolding load_from load_string get_string_mxsz copy
load_string-IsLoaded from h = elim (Bool-cases (text_length from == length from)) [
  | inl e ↦
      let k = length from - 1 in
      let t = zero-IsText k from (omega arith) (ground arith) in
      (
        suc k,
        take k from ++ 0 ∷ [],
        ground (arith, copy_text k (suc k) (take k from ++ 0 ∷ []) t),
        omega arith,
        text-IsLoaded k (take k from ++ 0 ∷ []) t,
      )
  | inr e ↦
      let n = text_length from in
      let less : n < length from = ground (arith, text_length-le from) in
      (
        suc n,
        take (suc n) from,
        ground arith,
        omega arith,
        text-IsLoaded n (take (suc n) from) (cut-IsText from less),
      )
]

-- The count in the header of a blob.
abbrev pub header : ℕ → ℕ → ℕ → ℕ → ℕ
header a b c d = a + 256 * (b + 256 * (c + 256 * d))

take_header :
    (n a b c d : ℕ) (rest : List ℕ)
    → take (n + 4) (a ∷ b ∷ c ∷ d ∷ rest) ≡ a ∷ b ∷ c ∷ d ∷ take n rest
take_header n a b c d rest = ap (λ (m : ℕ). take m (a ∷ b ∷ c ∷ d ∷ rest)) (suc_four n)
  where
    suc_four : (m : ℕ) → m + 4 ≡ suc (suc (suc (suc m)))
    suc_four m = omega arith

copy_header :
    (n room a b c d : ℕ) (rest : List ℕ)
    → n ≤ length rest
    → n + 4 ≤ room
    → copy (n + 4) room (a ∷ b ∷ c ∷ d ∷ rest) ≡ finished (a ∷ b ∷ c ∷ d ∷ take n rest)
unfolding copy
copy_header n room a b c d rest h k = ground (arith, take_header n a b c d rest)

full_header :
    (room a b c d : ℕ) (rest : List ℕ)
    → header a b c d ≡ length rest
    → header a b c d + 4 ≤ room
    → copy (header a b c d + 4) room (a ∷ b ∷ c ∷ d ∷ rest) ≡ finished (a ∷ b ∷ c ∷ d ∷ rest)
full_header room a b c d rest e h =
    copy_header (header a b c d) room a b c d rest (omega arith) h
    ∙ ap (λ (l : List ℕ). finished (a ∷ b ∷ c ∷ d ∷ l)) (rw e (take_all rest))

blob-IsLoaded :
    (a b c d : ℕ) (rest : List ℕ)
    → header a b c d + 4 < word_mod
    → header a b c d ≡ length rest
    → IsLoaded blob (header a b c d + 4) (a ∷ b ∷ c ∷ d ∷ rest)
unfolding get_size size_blob blob_size load_to store_blob load_from load_blob require_at_least
blob-IsLoaded a b c d rest h e = record {
  sized = refl;
  kept = omega (arith, e);
  written = λ room k. ground (arith, full_header room a b c d rest e k);
  again = ground (arith, e, full_header (header a b c d + 4) a b c d rest e);
}

-- A blob whose header counts no more bytes than follow, and which a `uint32_t` can measure with its
-- header, is loaded, and what is kept is written back and read again unchanged.
pub load_blob-IsLoaded :
    (a b c d : ℕ) (rest : List ℕ)
    → header a b c d + 4 < word_mod
    → header a b c d ≤ length rest
    → (load_from blob (a ∷ b ∷ c ∷ d ∷ rest)
        ≡ finished (header a b c d + 4, a ∷ b ∷ c ∷ d ∷ take (header a b c d) rest))
      × IsLoaded blob (header a b c d + 4) (a ∷ b ∷ c ∷ d ∷ take (header a b c d) rest)
unfolding load_from load_blob blob_size require_at_least
load_blob-IsLoaded a b c d rest h k = (
  ground (arith, copy_header (header a b c d) (header a b c d + 4) a b c d rest k),
  blob-IsLoaded a b c d (take (header a b c d) rest) h
      (omega (arith, length-take (header a b c d) rest)),
)

-- A blob whose header counts more bytes than follow is refused, if a `uint32_t` can measure it.
pub load_blob_short :
    (a b c d : ℕ) (rest : List ℕ)
    → header a b c d + 4 < word_mod
    → length rest < header a b c d
    → load_from blob (a ∷ b ∷ c ∷ d ∷ rest) ≡ insufficient
unfolding load_from load_blob blob_size require_at_least
load_blob_short a b c d rest h k = ground arith

-- A blob whose size with the header wraps in a `uint32_t` passes the test of the memory's length,
-- however short that is, and is copied beyond the few bytes that were allocated.
pub load_blob_overrun :
    (a b c d : ℕ) (rest : List ℕ)
    → header a b c d < word_mod
    → word_mod ≤ header a b c d + 4
    → load_from blob (a ∷ b ∷ c ∷ d ∷ rest) ≡ overrun
unfolding load_from load_blob blob_size require_at_least copy
load_blob_overrun a b c d rest h k = ground arith

-- `load_to` writes a stored string beyond any buffer that has too little room for it.
pub load_to_overrun :
    (n room : ℕ) (value : List ℕ) → IsText n value → room ≤ n → load_to string room value ≡ overrun
unfolding load_to store_string size_string copy
load_to_overrun n room value t h = ground (arith, t.whole, t.ends)
