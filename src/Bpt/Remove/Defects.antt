-- ===== src/Bpt/Remove/Defects.antt =====
-- `delete_key` where it takes the last pair of a leaf (StateDatabase/bpt_internal.h).
use state_db.Base.{
  ℕ, zero, suc, ◌<◌, ◌≡◌, refl, true, false, Option, some, List, [], ◌∷◌, ◌++◌, ◌==◌, done, crash,
  hang, arith, lt→ltb, le→ltb, ◌∙◌, sym, Bool-cases, inl, inr,
}
use state_db.Bpt.LeafList
use state_db.Bpt.LeafList.{LeafList}
use state_db.Bpt.Node.{Node, leaf, inner, Kids, end, shared, kid, first}
use state_db.Bpt.Remove.{delete_key, delete_child, after_kid, spin, chain_size}

module _ {V : Type 0} where
  -- A list of one pair, and the list that is left when that is deleted.
  abbrev pub single : ℕ → V → LeafList V
  single k v = record { root = (k, v) ∷ []; size = 1 }

  abbrev pub empty : LeafList V
  empty = record { root = []; size = 0 }

  delete_single : (k : ℕ) (v : V) → LeafList.delete_key k (single k v) ≡ some (true, empty)
  unfolding LeafList.delete_key
  delete_single k v = ground arith

  -- A round at a node with another key changes nothing, so the loop uses up any fuel.
  spin_kid :
      (i : ℕ) (t : Node V) (rest : Kids V) (k fuel : ℕ) (dropped : List (Node V))
      → (i == k) ≡ false
      → spin fuel k (kid i t rest, dropped) ≡ hang
  unfolding spin
  spin_kid i t rest k zero dropped other = refl
  spin_kid i t rest k (suc fuel) dropped other = rw other (spin_kid i t rest k fuel dropped other)

  spin_shared :
      (m k fuel : ℕ) (dropped : List (Node V))
      → (m == k) ≡ false
      → spin fuel k (shared m, dropped) ≡ hang
  unfolding spin
  spin_shared m k zero dropped other = refl
  spin_shared m k (suc fuel) dropped other = rw other (spin_shared m k fuel dropped other)

  -- In the leaf before the first separator the last pair is deleted, but the result is `false`; a
  -- second call with the same key then dereferences a null pointer.
  pub delete_key_lesser :
      (k : ℕ) (v : V) (a : ℕ) (next : Option ℕ) (j : ℕ) (kids : Kids V) (n : ℕ)
      → first kids ≡ done j
      → k < j
      → (delete_key k (inner (leaf a (single k v) next) kids n)
          ≡ done (false, inner (leaf a empty next) kids n, []))
        × (delete_key k (inner (leaf a empty next) kids n) ≡ crash)
  unfolding delete_key LeafList.delete_key
  delete_key_lesser k v a next j kids n e h = ground (arith, lt→ltb k j h, delete_single k v)

  -- Fuel above the count of the list nodes does not change what the loop comes to.
  pub spin_fuel :
      (fuel : ℕ) (kids : Kids V) (k : ℕ) (dropped : List (Node V))
      → chain_size kids < fuel
      → spin fuel k (kids, dropped) ≡ spin (suc (chain_size kids)) k (kids, dropped)
  unfolding spin
  spin_fuel zero kids k dropped h = absurd (omega (arith, h))
  spin_fuel (suc fuel) end k dropped h = refl
  spin_fuel (suc fuel) (shared m) k dropped h = elim (Bool-cases (m == k)) [
    | inl same ↦ rw same refl
    | inr other ↦ spin_shared m k (suc fuel) dropped other ∙ sym (spin_shared m k 2 dropped other)
  ]
  spin_fuel (suc fuel) (kid i t rest) k dropped h = elim (Bool-cases (i == k)) [
    | inl same ↦ rw same (spin_fuel fuel rest k (dropped ++ t ∷ []) (omega (arith, h)))
    | inr other ↦
        spin_kid i t rest k (suc fuel) dropped other
        ∙ sym (spin_kid i t rest k (suc (suc (chain_size rest))) dropped other)
  ]

  -- In the first leaf of the chain the last pair is deleted under a key above the separator, and
  -- there is another separator: the loop of `delete_child` uses up any fuel, and the call does not
  -- return.
  pub delete_key_hang :
      (k : ℕ) (v : V) (a : ℕ) (next : Option ℕ) (lesser : Node V) (i p : ℕ) (w : Node V)
      (rest : Kids V) (n : ℕ)
      → i < k
      → k < p
      → ((fuel : ℕ) → spin fuel k (kid p w rest, []) ≡ hang)
        × (delete_key k (inner lesser (kid i (leaf a (single k v) next) (kid p w rest)) n) ≡ hang)
  unfolding delete_key after_kid delete_child
  delete_key_hang k v a next lesser i p w rest n h h' =
      let apart : (p == k) ≡ false = ground arith in
      let here : (i == k) ≡ false = ground arith in
      let runs = spin_kid p w rest k (suc (chain_size (kid p w rest))) [] apart in
      (
        λ fuel. spin_kid p w rest k fuel [] apart,
        rw (le→ltb k i (omega (arith, h)), lt→ltb k p h', delete_single k v, here, runs) refl,
      )
