-- ===== src/Bpt/Node/Chains.antt =====
-- Lemmas on the chain of an internal node (StateDatabase/bpt_internal.h).
use state_db.Base.{
  ap, ℕ, suc, zero, ◌+◌, ◌≤◌, ◌<◌, ◌≡◌, refl, arith, Option, some, none, done, ltb, if◌then◌else◌,
}
use state_db.Bpt.Node.{
  Node, Kids, end, shared, kid, get_val_ptr, get_kid, first, cut_kids, insert_after,
}
use state_db.Bpt.Node.Order.{Fits, Chain, upper, live}

module _ {V : Type 0} where
  -- The key of the list node at the front of this part of the chain.
  abbrev pub next_key : Kids V → Option ℕ
  next_key end = none
  next_key (shared m) = some m
  next_key (kid j t rest) = some j

  pub get_kid_next :
      (q j : ℕ) (t : Node V) (rest : Kids V) (h : ℕ)
      → next_key rest ≡ some h
      → get_kid q (kid j t rest) ≡ (if ltb q h then get_val_ptr q t else get_kid q rest)
  unfolding get_kid
  get_kid_next q j t end h e = cc
  get_kid_next q j t (shared m) h e = ground arith
  get_kid_next q j t (kid i u rest) h e = ground arith

  pub next_key_of_first : (kids : Kids V) (j : ℕ) → first kids ≡ done j → next_key kids ≡ some j
  unfolding first
  next_key_of_first end j e = cc
  next_key_of_first (shared m) j e = cc
  next_key_of_first (kid i t rest) j e = ground arith

  pub upper_of_next : (kids : Kids V) (j hi : ℕ) → first kids ≡ done j → upper kids hi ≡ j
  unfolding first
  upper_of_next end j hi e = cc
  upper_of_next (shared m) j hi e = cc
  upper_of_next (kid i t rest) j hi e = ground arith

  pub first_of_live : (kids : Kids V) → 0 < live kids → (j : ℕ) × (first kids ≡ done j)
  unfolding first
  first_of_live end h = absurd (omega arith)
  first_of_live (shared m) h = absurd (omega arith)
  first_of_live (kid j t rest) h = (j, refl)

  pub insert_after_beyond :
      (m : ℕ) (u : Node V) (j : ℕ) (t : Node V) (rest rest' : Kids V) (p : ℕ)
      → first rest ≡ done p
      → p ≤ m
      → insert_after m u rest ≡ done rest'
      → insert_after m u (kid j t rest) ≡ done (kid j t rest')
  unfolding insert_after first
  insert_after_beyond m u j t end rest' p e h i = cc
  insert_after_beyond m u j t (shared s) rest' p e h i = cc
  insert_after_beyond m u j t (kid x y rest) rest' p e h i = ground arith

module _ {V : Type 0} (order : ℕ) where
  pub upper-le : (kids : Kids V) (hi : ℕ) → Chain order kids hi → upper kids hi ≤ hi
  upper-le end hi c = omega arith
  upper-le (shared m) hi c = omega arith
  upper-le (kid j t rest) hi c = omega (arith, upper-le rest hi c.2)

  -- What `m_root->skip(c)` and the cuts around it leave, with `j` the key at the front.
  pub record Cut (c j hi : ℕ) (kids front : Kids V) (m : ℕ) (u : Node V) (back : Kids V)
      : Type 0 where
    pub front_chain : Chain order front m
    pub front_next : next_key front ≡ some j
    pub front_upper : upper front m ≡ j
    pub front_first : 0 < c → first front ≡ done j
    pub front_live : live front ≡ c
    pub lowest : j ≤ m
    pub at_zero : c ≡ 0 → m ≡ j
    pub above : 0 < c → j < m
    pub middle : Fits order u m (upper back hi)
    pub below : m < upper back hi
    pub back_chain : Chain order back hi
    pub back_live : live kids ≡ c + suc (live back)
    pub get_front : (q : ℕ) → 0 < c → q < m → get_kid q front ≡ get_kid q kids
    pub get_back : (q : ℕ) → m ≤ q → get_kid q (kid m u back) ≡ get_kid q kids

  pub cut_kids-Cut :
      (c : ℕ) (kids : Kids V) (j hi : ℕ)
      → Chain order kids hi
      → first kids ≡ done j
      → c < live kids
      → (front : Kids V) × (m : ℕ) × (u : Node V) × (back : Kids V) × (cut_kids c kids
          ≡ done (front, m, u, back))
        × Cut c j hi kids front m u back
  unfolding cut_kids first
  cut_kids-Cut c end j hi f e h = cc
  cut_kids-Cut c (shared s) j hi f e h = cc
  cut_kids-Cut zero (kid i t rest) j hi f e h = (
    shared i,
    i,
    t,
    rest,
    refl,
    record {
      front_chain = omega arith;
      front_next = ground arith;
      front_upper = ground arith;
      front_first = λ x. absurd (omega arith);
      front_live = refl;
      lowest = ground arith;
      at_zero = λ x. ground arith;
      above = λ x. absurd (omega arith);
      middle = f.0;
      below = f.1;
      back_chain = f.2;
      back_live = omega arith;
      get_front = λ q x y. absurd (omega arith);
      get_back = λ q x. refl;
    },
  )
  cut_kids-Cut (suc c) (kid i t rest) j hi f e h =
      let (p, e') = first_of_live rest (omega arith) in
      let (front, m, u, back, eq, r) = cut_kids-Cut c rest p hi f.2 e' (omega arith) in
      let bound = upper_of_next rest p hi e' in
      (
        kid i t front,
        m,
        u,
        back,
        rw eq,
        record {
          front_chain = (
            rw r.front_upper (rw bound at f.0),
            rw r.front_upper (rw bound at f.1),
            r.front_chain,
          );
          front_next = ground arith;
          front_upper = ground arith;
          front_first = λ x. e;
          front_live = ap suc r.front_live;
          lowest = ground (arith, bound, f.1, r.lowest);
          at_zero = λ x. absurd (omega arith);
          above = λ x. ground (arith, bound, f.1, r.lowest);
          middle = r.middle;
          below = r.below;
          back_chain = r.back_chain;
          back_live = omega (arith, r.back_live);
          get_front = λ q x y. ground (
            arith,
            get_kid_next q i t front p r.front_next,
            get_kid_next q i t rest p (next_key_of_first rest p e'),
            r.get_front q,
            r.at_zero,
          );
          get_back = λ q x. ground (
            arith,
            get_kid_next q i t rest p (next_key_of_first rest p e'),
            r.get_back q x,
            r.lowest,
          );
        },
      )
