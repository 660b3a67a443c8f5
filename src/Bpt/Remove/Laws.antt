-- ===== src/Bpt/Remove/Laws.antt =====
-- Deleting a key from a leaf that holds another one (StateDatabase/bpt_internal.h).
use state_db.Base.{
  ℕ, suc, ap, ◌≤◌, ◌<◌, ◌≡◌, ◌≢◌, refl, Bool, true, false, Option, none, [], ◌++◌, Outcome, done,
  crash, astray, ◌>>=◌, ◌==◌, if◌then◌else◌, arith, ltb, length, flag, lt→ltb, le→ltb,
}
use state_db.Bpt.LeafList.{LeafList, size_mod}
use state_db.Bpt.LeafList.Lookup.{delete_key-Deletes}
use state_db.Bpt.Node.{
  Node, leaf, inner, alias, Kids, end, shared, kid, first, size, get_val_ptr, get_kid,
}
use state_db.Bpt.Node.Order.{Fits, LeafFits, Chain, live, upper}
use state_db.Bpt.Node.Chains.{next_key_of_first, get_kid_next, upper_of_next}
use state_db.Bpt.Node.Split.{inner-Fits}
use state_db.Bpt.Iterate.{leaves, leaves_of_kids}
use state_db.Bpt.Iterate.Same.{Keeps, AreSame, self-AreSame, AreSame-append}
use state_db.Bpt.Remove.{delete_key, delete_kid, after_kid}

flag_le : (b : Bool) → flag b ≤ 1
flag_le b = ground arith

module _ {V : Type 0} where
  -- The list of the leaf that a key leads to.
  unfoldable mutual
    unfolding first

    pub leaf_of : ℕ → Node V → Outcome (LeafList V)
    leaf_of k (leaf a l next) = done l
    leaf_of k (inner lesser kids n) =
        let low = leaf_of k lesser in
        let high = leaf_of_kid k kids in first kids >>= λ j. if ltb k j then low else high
    leaf_of k alias = astray

    pub leaf_of_kid : ℕ → Kids V → Outcome (LeafList V)
    leaf_of_kid k end = crash
    leaf_of_kid k (shared m) = astray
    leaf_of_kid k (kid j t end) = leaf_of k t
    leaf_of_kid k (kid j t (shared m)) = let here = leaf_of k t in if ltb k m then here else astray
    leaf_of_kid k (kid j t (kid i u rest)) =
        let here = leaf_of k t in
        let beyond = leaf_of_kid k (kid i u rest) in if ltb k i then here else beyond

  -- On `[lo, hi)` the second way of reading shows nothing at `k`, and otherwise what the first shows.
  abbrev pub Removes : ℕ → ℕ → ℕ → (old new : ℕ → Outcome (Option V)) → Type 0
  Removes k lo hi old new =
      (q : ℕ) (r : Option V)
      → lo ≤ q
      → q < hi
      → old q ≡ done r
      → new q ≡ done (if q == k then none else r)

  -- The result of a deletion says whether the key was there.
  abbrev pub Reports : ℕ → Bool → (ℕ → Outcome (Option V)) → Type 0
  Reports k b old = (r : Option V) → old k ≡ done r → (b ≡ false → r ≡ none) × (b ≡ true → r ≢ none)

module _ {V : Type 0} (order : ℕ) where
  abbrev pub Shrinks : ℕ → ℕ → ℕ → Node V → Type 0
  Shrinks k lo hi t =
      (b : Bool) × (t' : Node V) × (delete_key k t ≡ done (b, t', []))
      × Fits order t' lo hi
      × (0 < size t')
      × Removes k lo hi (λ q. get_val_ptr q t) (λ q. get_val_ptr q t')
      × Reports k b (λ q. get_val_ptr q t)
      × Keeps t t'

  pub delete_leaf_lem :
      (k a : ℕ) (l : LeafList V) (next : Option ℕ) (lo hi : ℕ)
      → order < size_mod
      → LeafFits order l lo hi
      → 2 ≤ length l.root
      → Shrinks k lo hi (leaf a l next)
  unfolding delete_key get_val_ptr size leaves
  delete_leaf_lem k a l next lo hi small f two =
      let (b, l', e, d) =
        delete_key-Deletes k l f.valid (λ x. omega (arith, ap length x)) (omega (arith, f.small)) in
      (
        b,
        leaf a l' next,
        rw e,
        record {
          valid = d.valid;
          within = d.ranged lo hi f.within;
          small = omega (arith, d.shorter, f.small);
        },
        omega (arith, d.valid.counted, d.shorter, flag_le b),
        λ q r x y g. ground (arith, d.without q),
        (λ r g. (λ h. ground (arith, d.present h), λ h. ground (arith, d.found h))),
        record { same = (refl, refl, tt); owns = λ o. tt },
      )

  abbrev pub ShrinksKid : ℕ → ℕ → ℕ → Kids V → Type 0
  ShrinksKid k j hi kids =
      (b : Bool) × (kids' : Kids V) × (delete_kid k kids ≡ done (b, kids', false, []))
      × (first kids' ≡ done j)
      × (live kids' ≡ live kids)
      × Chain order kids' hi
      × Removes k j hi (λ q. get_kid q kids) (λ q. get_kid q kids')
      × Reports k b (λ q. get_kid q kids)
      × AreSame (leaves_of_kids kids) (leaves_of_kids kids')

  kept : (t : Node V) → 0 < size t → (size t == 0) ≡ false
  kept t h = ground arith

  after_kid_full :
      (k : ℕ) (lesser : Node V) (n : ℕ) (b : Bool) (kids : Kids V)
      → after_kid k lesser n (b, kids, false, []) ≡ done (b, inner lesser kids n, [])
  unfolding after_kid
  after_kid_full k lesser n true kids = refl
  after_kid_full k lesser n false kids = refl

  pub low_lem :
      (k lo hi : ℕ) (lesser : Node V) (j : ℕ) (c : Node V) (rest : Kids V) (n : ℕ)
      → Fits order (inner lesser (kid j c rest) n) lo hi
      → k < j
      → Shrinks k lo j lesser
      → Shrinks k lo hi (inner lesser (kid j c rest) n)
  unfolding delete_key get_val_ptr first size leaves
  low_lem k lo hi lesser j c rest n f h (b, t, e, fits, pos, reads, reports, keeps) = (
    b,
    inner t (kid j c rest) n,
    rw (lt→ltb k j h, e, kept t pos) (ground arith),
    (fits, f.1, f.2, f.3, f.4),
    omega (arith, f.3),
    (λ q r x y g. ground (arith, reads q r x)),
    (λ r g. reports r (ground arith)),
    record {
      same =
          AreSame-append (leaves lesser) (leaves t) (leaves_of_kids (kid j c rest))
            (leaves_of_kids (kid j c rest)) keeps.same
            (self-AreSame (leaves_of_kids (kid j c rest)));
      owns = keeps.owns;
    },
  )

  pub high_lem :
      (k lo hi : ℕ) (lesser : Node V) (j : ℕ) (c : Node V) (rest : Kids V) (n : ℕ)
      → Fits order (inner lesser (kid j c rest) n) lo hi
      → j ≤ k
      → ShrinksKid k j hi (kid j c rest)
      → Shrinks k lo hi (inner lesser (kid j c rest) n)
  unfolding delete_key get_val_ptr first size leaves
  high_lem k lo hi lesser j c rest n f h (b, kids, e, e', count, chain, reads, reports, same) = (
    b,
    inner lesser kids n,
    rw (le→ltb k j h, e) (after_kid_full k lesser n b kids),
    inner-Fits order lesser kids j lo hi n e' f.0 f.1 chain (omega (arith, f.3, count)) f.4,
    omega (arith, f.3),
    (λ q r x y g. ground (arith, e', reads q r)),
    (λ r g. reports r (ground arith)),
    record {
      same =
          AreSame-append (leaves lesser) (leaves lesser) (leaves_of_kids (kid j c rest))
            (leaves_of_kids kids) (self-AreSame (leaves lesser)) same;
      owns = λ o. o;
    },
  )

  slot_same :
      (t t' : Node V) (rest : Kids V)
      → Keeps t t'
      → AreSame (leaves t ++ leaves_of_kids rest) (leaves t' ++ leaves_of_kids rest)
  slot_same t t' rest keeps =
      AreSame-append (leaves t) (leaves t') (leaves_of_kids rest) (leaves_of_kids rest) keeps.same
        (self-AreSame (leaves_of_kids rest))

  -- The child at the front of this part of the chain shrinks.
  pub slot_lem :
      (k i : ℕ) (t : Node V) (rest : Kids V) (hi : ℕ)
      → Chain order (kid i t rest) hi
      → i ≤ k
      → k < upper rest hi
      → Shrinks k i (upper rest hi) t
      → ShrinksKid k i hi (kid i t rest)
  unfolding delete_key get_kid first leaves
  slot_lem k i t end hi c h h' (b, t', e, fits, pos, reads, reports, keeps) = (
    b,
    kid i t' end,
    rw (e, kept t' pos),
    refl,
    refl,
    (fits, c.1, c.2),
    reads,
    reports,
    slot_same t t' end keeps,
  )
  slot_lem k i t (shared m) hi c h h' (b, t', e, fits, pos, reads, reports, keeps) = (
    b,
    kid i t' (shared m),
    rw (lt→ltb k m (omega arith), e, kept t' pos),
    refl,
    refl,
    (fits, c.1, c.2),
    (λ q r x y g. ground (arith, reads q r x y)),
    (λ r g. reports r (ground arith)),
    slot_same t t' (shared m) keeps,
  )
  slot_lem k i t (kid p w rest) hi c h h' (b, t', e, fits, pos, reads, reports, keeps) = (
    b,
    kid i t' (kid p w rest),
    rw (lt→ltb k p h', e, kept t' pos),
    refl,
    refl,
    (fits, c.1, c.2),
    (λ q r x y g. ground (arith, reads q r x)),
    (λ r g. reports r (ground arith)),
    slot_same t t' (kid p w rest) keeps,
  )

  pub beyond_lem :
      (k i : ℕ) (t : Node V) (p : ℕ) (w : Node V) (rest : Kids V) (hi : ℕ)
      → Chain order (kid i t (kid p w rest)) hi
      → i ≤ k
      → p ≤ k
      → ShrinksKid k p hi (kid p w rest)
      → ShrinksKid k i hi (kid i t (kid p w rest))
  unfolding delete_key get_kid first leaves
  beyond_lem k i t p w rest hi c h h' (b, kids, e, e', count, chain, reads, reports, same) =
      let bound = upper_of_next kids p hi e' in
      (
        b,
        kid i t kids,
        rw (le→ltb k p h', e),
        refl,
        ap suc count,
        (rw bound c.0, rw bound c.1, chain),
        (λ q r x y g.
            ground (arith, get_kid_next q i t kids p (next_key_of_first kids p e'), reads q r)),
        (λ r g. reports r (ground arith)),
        AreSame-append (leaves t) (leaves t) (leaves_of_kids (kid p w rest)) (leaves_of_kids kids)
            (self-AreSame (leaves t)) same,
      )
