-- ===== src/Object/Stored.antt =====
-- What is loaded into a `db_object` is written back and loaded again unchanged
-- (StateDatabase/object.cpp, dtypes.cpp).
use state_db.Base.{
  ℕ, ◌≤◌, ◌≡◌, refl, some, List, [], ◌∷◌, ◌++◌, length, arith, ap, ◌∙◌, sym, length-append,
}
use state_db.BigInt.{BigInt}
use state_db.BigInt.Text.{to_string, read}
use state_db.Dtypes.{
  Run, finished, insufficient, unknown_type, overrun, stray, Implementor, load_from, then_run,
}
use state_db.Dtypes.RoundTrip.{IsLoaded}
use state_db.Dtypes.Loaded.{AreBytes, load_from-IsLoaded}
use state_db.Object.{
  Dtype, plain, bigint_type, Storage, bytes, number, size_bigint, load_storage, write_storage,
  size_storage,
}
use state_db.Object.Bigints.{store_bigint_lem, load_bigint_text, load_bigint-to_string}

-- The bytes that stand for a storage: their number is its size, any buffer with room for them takes
-- them, and they are loaded as the same storage.
pub record IsStored (d : Dtype) (st : Storage) : Type 0 where
  pub text : List ℕ
  pub sized : size_storage d st ≡ finished (length text)
  pub written : (room : ℕ) → length text ≤ room → write_storage d room st ≡ finished text
  pub used : ℕ
  pub again : load_storage d text ≡ finished (used, st)

bytes-IsStored :
    (i : Implementor) (n : ℕ) (v : List ℕ) → IsLoaded i n v → IsStored (plain i) (bytes v)
unfolding load_storage write_storage size_storage
bytes-IsStored i n v l = record {
  text = v;
  sized = l.sized ∙ ap (λ (k : ℕ). finished k) (sym l.kept);
  written = λ room h. l.written room (omega (arith, l.kept));
  used = n;
  again = rw (l.again);
}

number-IsStored : (cs : List ℕ) (b : BigInt) → read cs ≡ some b → IsStored bigint_type (number b)
unfolding load_storage write_storage size_storage size_bigint
number-IsStored cs b e =
    let size = length-append {0} (to_string b) (0 ∷ []) in
    record {
      text = to_string b ++ 0 ∷ [];
      sized = rw size;
      written = λ room h. store_bigint_lem room b (omega (arith, size));
      used = length (to_string b);
      again = load_bigint-to_string cs b e;
    }

bytes_inv :
    (i : Implementor) (r : Run (ℕ × List ℕ)) (m : ℕ) (st : Storage)
    → then_run {B = ℕ × Storage} r (λ (n, value). finished (n, bytes value)) ≡ finished (m, st)
    → (n : ℕ) × (v : List ℕ) × (r ≡ finished (n, v)) × (bytes v ≡ st)
bytes_inv i (finished (n, v)) m st e = (n, v, refl, ground arith)
bytes_inv i insufficient m st e = absurd (cc)
bytes_inv i unknown_type m st e = absurd (cc)
bytes_inv i overrun m st e = absurd (cc)
bytes_inv i stray m st e = absurd (cc)

pub load_storage-IsStored :
    (d : Dtype) (from : List ℕ) (m : ℕ) (st : Storage)
    → AreBytes from
    → load_storage d from ≡ finished (m, st)
    → IsStored d st
unfolding load_storage
load_storage-IsStored (plain i) from m st h e =
    let (n, v, f, g) = bytes_inv i (load_from i from) m st e in
    rw (← g) (bytes-IsStored i n v (load_from-IsLoaded i from n v h f))
load_storage-IsStored bigint_type from m st h e =
    let (cs, b, f, g) = load_bigint_text from m st e in rw g (number-IsStored cs b f)
