-- ===== src/DynamicStorage/Contents.antt =====
-- What a `dynamic_storage` stands for (StateDatabase/dynamic_storage.h): nothing, or a type and the
-- bytes of one object.
use state_db.Base.{
  ℕ, zero, suc, ◌-◌, ◌≡◌, ◌≤◌, refl, true, Option, none, some, List, [], ◌∷◌, ◌++◌, leb, length,
  take, drop, replicate, arith, ap, ◌∙◌, length-append, length-replicate, length-take, length-drop,
  append-nil,
}
use state_db.Dtypes.{finished}
use state_db.DynamicStorage.{
  DynamicStorage, CppType, resize, write_front, deallocate, allocate, allocate_binary,
}

-- The cached size is the size of the vector.
pub record IsConsistent (d : DynamicStorage) : Type 0 where
  pub counted : d.size_ ≡ length d.data_

-- The type and the bytes, where there are any.
abbrev pub Content : Type 0
Content = Option (List ℕ × List ℕ)

abbrev pub content : List ℕ → List ℕ → Content
content name [] = none
content name (b ∷ bs) = some (name, b ∷ bs)

abbrev pub contents : DynamicStorage → Content
contents d = content d.type_name d.data_

-- The bytes that it stands for.
abbrev pub bytes_of : Content → List ℕ
bytes_of none = []
bytes_of (some (name, bs)) = bs

pub bytes_of-content : (name bs : List ℕ) → bytes_of (content name bs) ≡ bs
bytes_of-content name [] = refl
bytes_of-content name (b ∷ bs) = refl

deallocate-make :
    (bs : List ℕ) (n : ℕ) (name : List ℕ)
    → (deallocate (record { data_ = bs; size_ = n; type_name = name })).data_ ≡ []
unfolding deallocate
deallocate-make [] n name = refl
deallocate-make (b ∷ bs) n name = ground arith

resize-empty : (n : ℕ) → resize n [] ≡ replicate n 0
unfolding resize
resize-empty zero = refl
resize-empty (suc n) = let all : suc n - 0 ≡ suc n = omega arith in rw all refl

drop-replicate : (n : ℕ) → drop {A = ℕ} n (replicate n 0) ≡ []
drop-replicate zero = refl
drop-replicate (suc n) = drop-replicate n

-- After either way to allocate, every byte is zero, whatever was there.
pub allocate-zeros : (t : CppType) (d : DynamicStorage) → (allocate t d).data_ ≡ replicate t.size 0
unfolding allocate
allocate-zeros t d = rw (deallocate-make d.data_ d.size_ d.type_name) (resize-empty t.size)

pub allocate_binary-zeros :
    (s : ℕ) (d : DynamicStorage) → (allocate_binary s d).data_ ≡ replicate s 0
unfolding allocate_binary
allocate_binary-zeros s d = rw (deallocate-make d.data_ d.size_ d.type_name) (resize-empty s)

pub length-front :
    (s : ℕ) (mem old : List ℕ)
    → s ≤ length mem
    → s ≤ length old
    → length (take s mem ++ drop s old) ≡ length old
length-front s mem old h h' =
    omega (arith, length-append (take s mem) (drop s old), length-take s mem, length-drop s old)

-- A write of as many bytes as there are on both sides.
pub write_front_lem :
    (s : ℕ) (mem : List ℕ) (d : DynamicStorage)
    → s ≤ length mem
    → s ≤ length d.data_
    → write_front s mem d ≡ finished (record d { data_ = take s mem ++ drop s d.data_ })
unfolding write_front
write_front_lem s mem d h h' =
    let room : leb s (length d.data_) ≡ true = ground arith in
    let there : leb s (length mem) ≡ true = ground arith in rw (room, there) refl

-- A write over zeros that were just allocated.
pub write_front-zeros :
    (s : ℕ) (mem : List ℕ) (d : DynamicStorage)
    → s ≤ length mem
    → d.data_ ≡ replicate s 0
    → d.size_ ≡ s
    → (d' : DynamicStorage) × (write_front s mem d ≡ finished d')
      × IsConsistent d'
      × (contents d' ≡ content d.type_name (take s mem))
write_front-zeros s mem d h e n =
    let size : length d.data_ ≡ s = ap length e ∙ length-replicate s 0 in
    let bytes : take s mem ++ drop s d.data_ ≡ take s mem =
      ap (λ (x : List ℕ). take s mem ++ x) (ap (drop s) e ∙ drop-replicate s)
      ∙ append-nil (take s mem) in
    (
      record d { data_ = take s mem ++ drop s d.data_ },
      write_front_lem s mem d h (omega (arith, size)),
      record {
        counted = omega (arith, n, size, length-front s mem d.data_ h (omega (arith, size)));
      },
      ap (content d.type_name) bytes,
    )
