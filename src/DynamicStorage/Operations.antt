-- ===== src/DynamicStorage/Operations.antt =====
-- The operations of a `dynamic_storage` against what they do to its contents
-- (StateDatabase/dynamic_storage.h).
use state_db.Base.{
  ℕ, suc, ◌≡◌, ◌≢◌, ◌≤◌, refl, false, Option, none, some, List, [], ◌∷◌, ◌++◌, ◌==◌, ◌&&◌, ltb, leb,
  if◌then◌else◌, length, take, drop, replicate, arith, ap, sym, ◌∙◌, length-replicate, take_all,
  of_some, Option-cases, Bool-cases, inl, inr,
}
use state_db.Dtypes.{Run, finished, then_run}
use state_db.DynamicStorage.{
  DynamicStorage, CppType, binary, make, is, write_front, set_binary, deallocate, allocate,
  allocate_binary, allocate_copy, construct, copy_from, get_asio_buffer,
}
use state_db.DynamicStorage.Contents.{
  IsConsistent, Content, content, contents, bytes_of, bytes_of-content, allocate-zeros,
  allocate_binary-zeros, write_front_lem, write_front-zeros, length-front,
}

-- A call of one of the operations that change a storage, with what it is given.
pub data Call : Type 0 where
  allocates : CppType → Call
  allocates_binary : ℕ → Call
  allocates_copy : ℕ → List ℕ → Call
  copies_from constructs : CppType → List ℕ → Call
  sets_binary : List ℕ → ℕ → Call
  deallocates : Call

unfoldable pub apply : Call → DynamicStorage → Run DynamicStorage
unfolding allocate allocate_binary allocate_copy copy_from construct set_binary deallocate
apply (allocates t) d = finished (allocate t d)
apply (allocates_binary s) d = finished (allocate_binary s d)
apply (allocates_copy s mem) d = allocate_copy s mem d
apply (copies_from t value) d = copy_from t value d
apply (constructs t value) d = construct t value d
apply (sets_binary mem s) d = set_binary mem s d
apply deallocates d = finished (deallocate d)

-- `s` bytes written to the front of what is there, if there are as many on both sides.
abbrev pub overwritten : ℕ → List ℕ → Content → Option Content
overwritten s mem none = none
overwritten s mem (some (name, old)) =
    if leb s (length mem) && leb s (length old)
    then some (content name (take s mem ++ drop s old))
    else none

abbrev pub fresh_copy : List ℕ → ℕ → List ℕ → Option Content
fresh_copy name s mem = if leb s (length mem) then some (content name (take s mem)) else none

-- What an operation should do to the contents; `none` is a call that is not allowed.
abbrev pub expect : Call → Content → Option Content
expect (allocates t) c = some (content t.name (replicate t.size 0))
expect (allocates_binary s) c = some (content binary (replicate s 0))
expect (allocates_copy s mem) c = fresh_copy binary s mem
expect (copies_from t value) c = fresh_copy t.name t.size value
expect (constructs t value) c = overwritten t.size value c
expect (sets_binary mem s) c = overwritten s mem c
expect deallocates c = some none

none_some : (c : Content) → ◌≢◌ {A = Option Content} none (some c)
none_some c e = cc

abbrev Implements : Run DynamicStorage → Content → Type 0
Implements r c = (d : DynamicStorage) × (r ≡ finished d) × IsConsistent d × (contents d ≡ c)

-- A storage that was just allocated.
allocated-Implements :
    (d : DynamicStorage) (name : List ℕ) (s : ℕ)
    → d.data_ ≡ replicate s 0
    → d.size_ ≡ s
    → d.type_name ≡ name
    → Implements (finished d) (content name (replicate s 0))
allocated-Implements d name s e n t =
    let size : length d.data_ ≡ s = ap length e ∙ length-replicate s 0 in
    (d, refl, record { counted = omega (arith, n, size) }, rw (e, t) refl)

copied-Implements :
    (d : DynamicStorage) (s : ℕ) (mem : List ℕ) (c : Content)
    → d.data_ ≡ replicate s 0
    → d.size_ ≡ s
    → fresh_copy d.type_name s mem ≡ some c
    → Implements (write_front s mem d) c
copied-Implements d s mem c e n x = elim (Bool-cases (leb s (length mem))) [
  | inl room ↦
      let (d', run, is, holds) = write_front-zeros s mem d (ground arith) e n in
      of_some (Implements (write_front s mem d)) (content d.type_name (take s mem)) c (rw room at x)
        (d', run, is, holds)
  | inr refused ↦ absurd (none_some c (rw refused at x))
]

written_over :
    (bs name : List ℕ) (n s : ℕ) (mem : List ℕ) (c : Content)
    → n ≡ length bs
    → overwritten s mem (content name bs) ≡ some c
    → Implements (write_front s mem (record { data_ = bs; size_ = n; type_name = name })) c
written_over [] name n s mem c e x = absurd (none_some c x)
written_over (b ∷ bs) name n s mem c e x =
    elim (Bool-cases (leb s (length mem) && leb s (suc (length bs)))) [
      | inl room ↦
          let there : s ≤ length mem = ground (arith, room) in
          let fits : s ≤ suc (length bs) = ground (arith, room) in
          of_some
            (Implements
              (write_front s mem (record { data_ = b ∷ bs; size_ = n; type_name = name })))
            (content name (take s mem ++ drop s (b ∷ bs))) c (rw room at x)
            (
              record { data_ = take s mem ++ drop s (b ∷ bs); size_ = n; type_name = name },
              write_front_lem s mem (record { data_ = b ∷ bs; size_ = n; type_name = name }) there
                  fits,
              record { counted = omega (arith, e, length-front s mem (b ∷ bs) there fits) },
              refl,
            )
      | inr refused ↦ absurd (none_some c (rw refused at x))
    ]

deallocated-Implements :
    (bs name : List ℕ) (n : ℕ)
    → n ≡ length bs
    → Implements (finished (deallocate (record { data_ = bs; size_ = n; type_name = name }))) none
unfolding deallocate
deallocated-Implements [] name n e =
    (record { data_ = []; size_ = n; type_name = name }, refl, record { counted = e }, refl)
deallocated-Implements (b ∷ bs) name n e =
    let full : (suc (length bs) == 0) ≡ false = ground arith in
    (make, rw full refl, record { counted = refl }, refl)

overwritten-Implements :
    (d : DynamicStorage) (s : ℕ) (mem : List ℕ) (c : Content)
    → IsConsistent d
    → overwritten s mem (contents d) ≡ some c
    → Implements (write_front s mem d) c
overwritten-Implements d s mem c is x =
    written_over d.data_ d.type_name d.size_ s mem c is.counted x

apply-Implements :
    (op : Call) (d : DynamicStorage) (c : Content)
    → IsConsistent d
    → expect op (contents d) ≡ some c
    → Implements (apply op d) c
unfolding apply
apply-Implements (allocates t) d c is x =
    of_some (Implements (finished (allocate t d))) _ c x
      (allocated-Implements (allocate t d) t.name t.size (allocate-zeros t d) refl refl)
apply-Implements (allocates_binary s) d c is x =
    of_some (Implements (finished (allocate_binary s d))) _ c x
      (allocated-Implements (allocate_binary s d) binary s (allocate_binary-zeros s d) refl refl)
apply-Implements (allocates_copy s mem) d c is x =
    copied-Implements (allocate_binary s d) s mem c (allocate_binary-zeros s d) refl x
apply-Implements (copies_from t value) d c is x =
    copied-Implements (allocate t d) t.size value c (allocate-zeros t d) refl x
apply-Implements (constructs t value) d c is x = overwritten-Implements d t.size value c is x
apply-Implements (sets_binary mem s) d c is x = overwritten-Implements d s mem c is x
apply-Implements deallocates d c is x =
    of_some (Implements (finished (deallocate d))) none c x
      (deallocated-Implements d.data_ d.type_name d.size_ is.counted)

-- The calls in turn, and what they should do.
unfoldable pub apply_all : List Call → DynamicStorage → Run DynamicStorage
unfolding apply
apply_all [] d = finished d
apply_all (op ∷ ops) d = then_run (apply op d) (apply_all ops)

abbrev pub then_expect : Option Content → (Content → Option Content) → Option Content
then_expect none f = none
then_expect (some c) f = f c

abbrev pub expect_all : List Call → Content → Option Content
expect_all [] c = some c
expect_all (op ∷ ops) c = then_expect (expect op c) (expect_all ops)

apply_all_lem :
    (ops : List Call) (d : DynamicStorage) (c : Content)
    → IsConsistent d
    → expect_all ops (contents d) ≡ some c
    → Implements (apply_all ops d) c
unfolding apply_all
apply_all_lem [] d c is x = (d, refl, is, ground (arith, x))
apply_all_lem (op ∷ ops) d c is x = elim (Option-cases (expect op (contents d))) [
  | inl refused ↦ absurd (none_some c (rw refused at x))
  | inr (c', allowed) ↦
      let (d', run, is', holds) = apply-Implements op d c' is allowed in
      let (d'', run', is'', holds') =
        apply_all_lem ops d' c is' (ap (expect_all ops) holds ∙ rw allowed at x) in
      (d'', rw run run', is'', holds')
]

-- Any sequence of allowed calls on a new storage runs without an access outside of its memory. It
-- then stands for what the calls should leave, the type and the bytes or nothing, and the buffer
-- that the asio library is given is exactly those bytes.
pub apply_all-expect_all :
    (ops : List Call) (c : Content)
    → expect_all ops none ≡ some c
    → (d : DynamicStorage) × (apply_all ops make ≡ finished d)
      × (contents d ≡ c)
      × (get_asio_buffer d ≡ finished (bytes_of c))
unfolding get_asio_buffer
apply_all-expect_all ops c x =
    let (d, run, is, holds) = apply_all_lem ops make c (record { counted = refl }) x in
    let all : ltb (length d.data_) d.size_ ≡ false = ground (arith, is.counted) in
    let bytes : take d.size_ d.data_ ≡ bytes_of c =
      ap (λ (n : ℕ). take n d.data_) is.counted
      ∙ take_all d.data_
      ∙ sym (bytes_of-content d.type_name d.data_)
      ∙ ap bytes_of holds in
    (d, run, holds, rw all (ap (λ (b : List ℕ). finished b) bytes))
