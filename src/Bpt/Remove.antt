-- ===== src/Bpt/Remove.antt =====
-- `delete_key` of `leaf`, `bpt_internal` and `tree` (StateDatabase/leaf.h, bpt_internal.h, bpt.h).
--
-- `delete_child` frees a list node but not the child behind it: what it drops stays allocated, and
-- reachable through the `m_next` of a leaf, so it is handed back in a list. The list node that a
-- split left shared may be freed through its owner; the model goes on reading its key.
use state_db.Base.{
  ℕ, zero, suc, ◌+◌, Bool, true, false, Option, none, some, List, [], ◌∷◌, ◌++◌, Outcome, done,
  crash, hang, astray, ◌>>=◌, ◌&&◌, not, ltb, ◌==◌, if◌then◌else◌,
}
use state_db.Bpt.LeafList
use state_db.Bpt.LeafList.{LeafList}
use state_db.Bpt.Node.{Node, leaf, inner, alias, Kids, end, shared, kid, first, size}
use state_db.Bpt.Tree.{Tree}
pub mod Laws
pub mod Shrink
pub mod Root
pub mod Defects

module _ {V : Type 0} where
  -- One round of the loop of `delete_child`, whose variable `lN` stays at the first list node: on the
  -- chain behind that node, and what was dropped so far. The node behind it is removed if it has the
  -- key.
  unfoldable pub spin_round : ℕ → Kids V × List (Node V) → Outcome (Kids V × List (Node V))
  spin_round k (end, dropped) = done (end, dropped)
  spin_round k (shared m, dropped) = if m == k then astray else done (shared m, dropped)
  spin_round k (kid i t rest, dropped) =
      if i == k then done (rest, dropped ++ t ∷ []) else done (kid i t rest, dropped)

  -- The loop, as long as there is a node behind `lN`. `hang` is fuel that is used up.
  unfoldable pub spin : ℕ → ℕ → Kids V × List (Node V) → Outcome (Kids V × List (Node V))
  unfolding spin_round
  spin zero k state = hang
  spin (suc fuel) k (end, dropped) = done (end, dropped)
  spin (suc fuel) k (shared m, dropped) =
      spin_round k (shared m, dropped) >>= (λ state. spin fuel k state)
  spin (suc fuel) k (kid i t rest, dropped) =
      spin_round k (kid i t rest, dropped) >>= (λ state. spin fuel k state)

  -- The count of the list nodes, each of which a round removes, or none at all.
  abbrev pub chain_size : Kids V → ℕ
  chain_size end = 0
  chain_size (shared m) = 1
  chain_size (kid i t rest) = suc (chain_size rest)

  unfoldable pub delete_child : ℕ → Kids V → Outcome (Kids V × List (Node V))
  unfolding spin
  delete_child k end = crash
  delete_child k (shared m) = astray
  delete_child k (kid j t rest) =
      if j == k
      then done (rest, t ∷ [])
      else spin (suc (chain_size rest)) k (rest, []) >>= λ (kids, dropped).
          done (kid j t kids, dropped)

  -- `leaf::delete_key`.
  pub delete_leaf :
      ℕ → Option ℕ → Option (Bool × LeafList V) → Outcome (Bool × Node V × List (Node V))
  delete_leaf a next none = crash
  delete_leaf a next (some (b, l)) = done (b, leaf a l next, [])

  -- The last part of `bpt_internal::delete_key`, where the child stood in the chain: the result of
  -- the child, the chain with the child changed, and whether the child is empty.
  pub after_kid :
      ℕ
      → Node V
      → ℕ
      → Bool × Kids V × Bool × List (Node V)
      → Outcome (Bool × Node V × List (Node V))
  unfolding delete_child
  after_kid k lesser n (b, kids, empty, dropped) =
      if b && empty
      then delete_child k kids
        >>= (λ (kids', more). done (true, inner lesser kids' n, dropped ++ more))
      else done (b, inner lesser kids n, dropped)

  unfoldable mutual
    unfolding delete_leaf after_kid first size

    pub delete_key : ℕ → Node V → Outcome (Bool × Node V × List (Node V))
    delete_key k (leaf a l next) = delete_leaf a next (LeafList.delete_key k l)
    delete_key k (inner lesser kids n) =
        let low = delete_key k lesser in
        let high = delete_kid k kids in
        first kids >>= λ j.
        if ltb k j
        then low >>= (λ (b, t, dropped). done (b && not (size t == 0), inner t kids n, dropped))
        else high >>= after_kid k lesser n
    delete_key k alias = astray

    pub delete_kid : ℕ → Kids V → Outcome (Bool × Kids V × Bool × List (Node V))
    delete_kid k end = crash
    delete_kid k (shared m) = astray
    delete_kid k (kid j t end) =
        delete_key k t >>= λ (b, t', dropped). done (b, kid j t' end, size t' == 0, dropped)
    delete_kid k (kid j t (shared m)) =
        let here = delete_key k t in
        if ltb k m
        then here >>= (λ (b, t', dropped). done (b, kid j t' (shared m), size t' == 0, dropped))
        else astray
    delete_kid k (kid j t (kid i u rest)) =
        let here = delete_key k t in
        let beyond = delete_kid k (kid i u rest) in
        if ltb k i
        then here >>= (λ (b, t', dropped). done (b, kid j t' (kid i u rest), size t' == 0, dropped))
        else beyond >>= (λ (b, rest', empty, dropped). done (b, kid j t rest', empty, dropped))

  -- `tree::delete_key`: a root whose count fell to 0 is freed.
  unfoldable pub delete_root : ℕ → Option (Node V) → Outcome (Bool × Option (Node V))
  unfolding delete_key size
  delete_root k none = done (false, none)
  delete_root k (some t) =
      delete_key k t >>= λ (b, t', dropped). done (b, if b && (size t' == 0) then none else some t')

  unfoldable pub delete : ℕ → Tree V → Outcome (Bool × Tree V)
  unfolding delete_root
  delete k t = delete_root k t.root >>= λ (b, r). done (b, record t { root = r })
