-- ===== src/Bpt/LeafList/Halves.antt =====
-- `leaf_list::split` of StateDatabase/list.h.
use state_db.Base.{
  ℕ, zero, suc, ◌+◌, ◌-◌, ◌/◌, ◌≤◌, ◌<◌, ◌≡◌, refl, ap, true, false, List, [], ◌∷◌, ◌++◌, arith,
  length, some, if◌then◌else◌, ltb, length-append,
}
use state_db.Bpt.LeafList.{LeafList, cut_after, split, find, get_val_ptr, first_key, get_root_key}
use state_db.Bpt.LeafList.Lookup.{find-Above}
use state_db.Bpt.LeafList.Order.{Above, IsSorted, IsValid}

module _ {V : Type 0} where
  -- A cut inside the chain is found, and its front holds one node more than the steps taken.
  cut_after_lem :
      (n : ℕ) (c : List (ℕ × V))
      → n < length c
      → (front back : List (ℕ × V)) × (cut_after n c ≡ some (front, back))
        × (front ++ back ≡ c)
        × (length front ≡ suc n)
  unfolding cut_after
  cut_after_lem n [] h = absurd (omega arith)
  cut_after_lem zero (x ∷ c) h = (x ∷ [], c, refl, refl, refl)
  cut_after_lem (suc n) (x ∷ c) h =
      let (front, back, e, whole, size) = cut_after_lem n c (omega arith) in
      (x ∷ front, back, ground arith, ap (◌∷◌ x) whole, ap suc size)

  abbrev pub last_key : List (ℕ × V) → ℕ
  last_key [] = 0
  last_key ((j, w) ∷ []) = j
  last_key ((j, w) ∷ x ∷ rest) = last_key (x ∷ rest)

  pub Above-append : (b : ℕ) (xs ys : List (ℕ × V)) → Above b (xs ++ ys) → Above b xs × Above b ys
  Above-append b [] ys h = (tt, h)
  Above-append b ((j, w) ∷ xs) ys h =
      let (front, back) = Above-append b xs ys h.1 in ((h.0, front), back)

  IsSorted-append : (xs ys : List (ℕ × V)) → IsSorted (xs ++ ys) → IsSorted xs × IsSorted ys
  IsSorted-append [] ys s = (tt, s)
  IsSorted-append ((j, w) ∷ xs) ys s =
      let (front, back) = IsSorted-append xs ys s.1 in (((Above-append j xs ys s.0).0, front), back)

  find-append-lt :
      (xs : List (ℕ × V)) (m : ℕ) (u : V) (ys : List (ℕ × V)) (q : ℕ)
      → IsSorted (xs ++ (m, u) ∷ ys)
      → find q (xs ++ (m, u) ∷ ys) ≡ (if ltb q m then find q xs else find q ((m, u) ∷ ys))
  unfolding find
  find-append-lt [] m u ys q s = ground (arith, find-Above m q ys s.0)
  find-append-lt ((j, w) ∷ xs) m u ys q s =
      ground (arith, find-append-lt xs m u ys q s.1, (Above-append j xs ((m, u) ∷ ys) s.0).1)

  -- What `split` promises: two valid halves that do not overlap, whose sizes add up, and in which
  -- a key is found by comparing it with the first key of the new list.
  pub record Halved (l front back : LeafList V) : Type 0 where
    pub front_valid : IsValid front
    pub back_valid : IsValid back
    pub front_size : front.size ≡ l.size / 2
    pub total : front.size + back.size ≡ l.size
    pub whole : front.root ++ back.root ≡ l.root
    pub routes :
        (m : ℕ) × (get_root_key back ≡ some m)
        × ((q : ℕ)
            → get_val_ptr q l ≡ (if ltb q m then get_val_ptr q front else get_val_ptr q back))

  halves :
      (c front back : List (ℕ × V))
      → IsSorted c
      → front ++ back ≡ c
      → length front < length c
      → (IsSorted front × IsSorted back × (length front + length back ≡ length c))
        × ((m : ℕ) × (first_key back ≡ some m)
            × ((q : ℕ) → find q c ≡ (if ltb q m then find q front else find q back)))
  unfolding first_key
  halves c front [] s e h = absurd (omega (arith, ap length e, length-append front []))
  halves c front ((m, u) ∷ back) s e h =
      let s' : IsSorted (front ++ (m, u) ∷ back) = rw e s in
      let (sf, sb) = IsSorted-append front ((m, u) ∷ back) s' in
      (
        (sf, sb, omega (arith, ap length e, length-append front ((m, u) ∷ back))),
        (m, refl, λ q. rw (← e) (find-append-lt front m u back q s')),
      )

  -- A valid list of two nodes or more is split, whatever `dest` held before.
  pub split-Halved :
      (l dest : LeafList V)
      → IsValid l
      → 2 ≤ length l.root
      → (front back : LeafList V) × (split l dest ≡ some (true, front, back)) × Halved l front back
  unfolding split get_root_key get_val_ptr
  split-Halved l dest h big =
      let (front, back, e, whole, size) =
        cut_after_lem (l.size / 2 - 1) l.root (omega (arith, h.counted)) in
      let ((sf, sb, total), routes) =
        halves l.root front back h.sorted whole (omega (arith, h.counted)) in
      (
        record { root = front; size = l.size / 2 },
        record { root = back; size = l.size - l.size / 2 },
        ground (arith, h.counted),
        record {
          front_valid = record { sorted = sf; counted = omega (arith, h.counted) };
          back_valid = record { sorted = sb; counted = omega (arith, h.counted) };
          front_size = refl;
          total = omega arith;
          whole = whole;
          routes = routes;
        },
      )

  -- A list of at most one node is left alone.
  pub split_small : (l dest : LeafList V) → l.size < 2 → split l dest ≡ some (false, l, dest)
  unfolding split
  split_small l dest h = ground arith
