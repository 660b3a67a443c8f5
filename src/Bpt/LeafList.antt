-- ===== src/Bpt/LeafList.antt =====
-- `leaf_list` of StateDatabase/list.h: the chain of `list_node`s that a leaf owns, with a cached
-- length. The chain is owned by one list, so it is modelled by the sequence of its pairs; a null
-- pointer that is dereferenced is `none`. The database instantiates the keys with `size_t`.
use state_db.Base.{
  ℕ, zero, suc, ◌+◌, ◌-◌, ◌/◌, ◌%◌, ◌^◌, Bool, true, false, Option, none, some, List, [], ◌∷◌, ltb,
  leb, ◌==◌, if◌then◌else◌,
}
pub mod Order
pub mod Lookup
pub mod Halves
pub mod Range
pub mod Joined

-- The number of values of `size_t`.
abbrev pub size_mod : ℕ
size_mod = 2 ^ 64

abbrev pub inc : ℕ → ℕ
inc n = (n + 1) % size_mod

abbrev pub dec : ℕ → ℕ
dec n = (n + size_mod - 1) % size_mod

pub record LeafList {ℓ} (V : Type ℓ) : Type ℓ where
  pub root : List (ℕ × V)
  pub size : ℕ

module _ {ℓ} {V : Type ℓ} where
  -- `list_node::skip` followed by the cut that `split` makes: what stands up to and including the
  -- node reached after `count` steps, and what stands behind it. `none` if the chain is too short.
  pub cut_after : ℕ → List (ℕ × V) → Option (List (ℕ × V) × List (ℕ × V))
  cut_after count [] = none
  cut_after zero (n ∷ rest) = some (n ∷ [], rest)
  cut_after (suc count) (n ∷ rest) = elim (cut_after count rest) [
    | none ↦ none
    | some (front, back) ↦ some (n ∷ front, back)
  ]

  -- The end of the walk of `set`, at the node `(j, w)`: overwrite, or link a new node behind it.
  -- The flag says whether a node was added.
  pub settle : ℕ → V → ℕ → V → List (ℕ × V) → List (ℕ × V) × Bool
  settle k v j w rest = if j == k then ((j, v) ∷ rest, false) else ((j, w) ∷ (k, v) ∷ rest, true)

  pub set_from : ℕ → V → ℕ → V → List (ℕ × V) → List (ℕ × V) × Bool
  unfolding settle
  set_from k v j w [] = settle k v j w []
  set_from k v j w ((i, u) ∷ rest) =
      let (chain, grew) = set_from k v i u rest in
      if leb i k then ((j, w) ∷ chain, grew) else settle k v j w ((i, u) ∷ rest)

  pub set_chain : ℕ → V → List (ℕ × V) → List (ℕ × V) × Bool
  unfolding set_from
  set_chain k v [] = ((k, v) ∷ [], true)
  set_chain k v ((j, w) ∷ rest) =
      if ltb k j then ((k, v) ∷ (j, w) ∷ rest, true) else set_from k v j w rest

  -- The value that `get_val_ptr` points to, in the chain.
  pub find : ℕ → List (ℕ × V) → Option V
  find k [] = none
  find k ((j, w) ∷ rest) = if j == k then some w else find k rest

  -- The loop of `delete_key` behind a node that was kept; the flag says whether a node was freed.
  pub unlink : ℕ → List (ℕ × V) → List (ℕ × V) × Bool
  unlink k [] = ([], false)
  unlink k ((j, w) ∷ rest) =
      let (chain, freed) = unlink k rest in if j == k then (rest, true) else ((j, w) ∷ chain, freed)

  -- The implicit constructor: `m_root` is null and `m_size` is whatever the memory held.
  unfoldable pub make : ℕ → LeafList V
  make junk = record { root = []; size = junk }

  unfoldable pub set : ℕ → V → LeafList V → LeafList V
  unfolding set_chain
  set k v l =
      let (chain, grew) = set_chain k v l.root in
      record { root = chain; size = if grew then inc l.size else l.size }

  unfoldable pub get_val_ptr : ℕ → LeafList V → Option V
  unfolding find
  get_val_ptr k l = find k l.root

  pub first_key : List (ℕ × V) → Option ℕ
  first_key [] = none
  first_key ((j, w) ∷ rest) = some j

  -- `m_root` is dereferenced with no test.
  unfoldable pub get_root_key : LeafList V → Option ℕ
  unfolding first_key
  get_root_key l = first_key l.root

  -- `delete_key` from the first node `(j, w)` on.
  pub delete_from : ℕ → ℕ → V → List (ℕ × V) → List (ℕ × V) × Bool
  unfolding unlink
  delete_from k j w rest =
      let (chain, freed) = unlink k rest in if k == j then (rest, true) else ((j, w) ∷ chain, freed)

  -- The count is lowered first, and raised again if nothing was freed.
  delete_at : ℕ → List (ℕ × V) → ℕ → Option (Bool × LeafList V)
  unfolding delete_from
  delete_at k [] size = none
  delete_at k ((j, w) ∷ rest) size =
      let (chain, freed) = delete_from k j w rest in
      some (freed, record { root = chain; size = if freed then dec size else inc (dec size) })

  -- The result, and the list afterwards; `none` is the null dereference of an empty list.
  unfoldable pub delete_key : ℕ → LeafList V → Option (Bool × LeafList V)
  unfolding delete_at
  delete_key k l = delete_at k l.root l.size

  -- `none` is a null dereference. The flag is the result; then this list, and `dest`.
  unfoldable pub split : LeafList V → LeafList V → Option (Bool × LeafList V × LeafList V)
  unfolding cut_after
  split l dest =
      let half1 = l.size / 2 in
      if half1 == 0 then some (false, l, dest) else elim (cut_after (half1 - 1) l.root) [
        | none ↦ none
        | some (front, back) ↦ some (
          true,
          record { root = front; size = half1 },
          record { root = back; size = l.size - half1 },
        )
      ]
