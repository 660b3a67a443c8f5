-- ===== src/Bpt/Node/Insert.antt =====
-- `set` of `leaf` and `bpt_internal` (StateDatabase/leaf.h, bpt_internal.h): it never fails on a node that
-- fits its range, and afterwards the node, with what was split off, fits the range and reads as an
-- updated map.
use state_db.Base.{
  ℕ, ◌-◌, ◌≤◌, ◌<◌, ◌≡◌, arith, length, Option, some, none, ltb, if◌then◌else◌, ◌==◌, Bool-cases,
  inl, inr, true,
}
use state_db.Bpt.LeafList
use state_db.Bpt.LeafList.{LeafList, size_mod}
use state_db.Bpt.LeafList.Order.{IsValid}
use state_db.Bpt.LeafList.Lookup.{set-IsValid, get_val_ptr-set, length-set-le, root-get_root_key}
use state_db.Bpt.LeafList.Halves.{Halved, split-Halved}
use state_db.Bpt.LeafList.Range.{Within, Within-set, Within-append}
use state_db.Bpt.Node.{leaf, new_leaf, get_val_ptr, insert, link_leaf, or_crash}
use state_db.Bpt.Node.Order.{LeafFits}
use state_db.Bpt.Node.Split.{Sets}

module _ {V : Type 0} (order : ℕ) (fresh junk : ℕ) (big : 3 ≤ order)
    (small : order < size_mod) where
  Halved-Ranges :
      (k : ℕ) (v : V) (a : ℕ) (l : LeafList V) (next : Option ℕ) (lo hi : ℕ)
      (front back : LeafList V)
      → Halved (LeafList.set k v l) front back
      → IsValid (LeafList.set k v l)
      → Within lo hi (LeafList.set k v l).root
      → order - 1 < length (LeafList.set k v l).root
      → length (LeafList.set k v l).root ≤ order
      → ((q : ℕ)
          → LeafList.get_val_ptr q (LeafList.set k v l)
            ≡ (if q == k then some v else LeafList.get_val_ptr q l))
      → Sets order k v lo hi
          (λ q. get_val_ptr q (leaf a l next))
          (link_leaf fresh a next (some (true, front, back)))
  unfolding link_leaf or_crash get_val_ptr
  Halved-Ranges k v a l next lo hi front back h valid within full room reads =
      let (m, em, route) = h.routes in
      let (u, ys, shape) = root-get_root_key back m em in
      let whole = rw shape at h.whole in
      let (wf, wb, gap) =
        Within-append front.root m u ys lo hi (rw (← whole) at valid.sorted)
          (rw (← whole) at within) in
      (
        leaf a front (some fresh),
        some (new_leaf m (leaf fresh back next)),
        rw em,
        (
          gap (omega (arith, h.front_size, h.front_valid.counted, valid.counted)),
          wb.1,
          record {
            valid = h.front_valid;
            within = wf;
            small = omega (arith, h.front_size, h.front_valid.counted, valid.counted);
          },
          record {
            valid = h.back_valid;
            within = rw shape wb;
            small = omega (arith, h.front_size, h.back_valid.counted, valid.counted, h.total);
          },
        ),
        λ q r x y e. ground (arith, route q, reads q),
      )

  pub insert_lem :
      (k : ℕ) (v : V) (a : ℕ) (l : LeafList V) (next : Option ℕ) (lo hi : ℕ)
      → LeafFits order l lo hi
      → lo ≤ k
      → k < hi
      → Sets order k v lo hi
          (λ q. get_val_ptr q (leaf a l next))
          (insert order fresh junk k v a l next)
  unfolding insert get_val_ptr
  insert_lem k v a l next lo hi f h h' =
      let l' = LeafList.set k v l in
      let valid = set-IsValid k v l (omega (arith, f.small)) f.valid in
      let within = Within-set k v l lo hi h h' f.within in
      let reads = λ (q : ℕ). get_val_ptr-set k v l q f.valid in
      elim (Bool-cases (ltb (order - 1) l'.size)) [
        | inl full ↦
            let count : order - 1 < length l'.root = ground (arith, valid.counted) in
            let (front, back, e, halved) =
              split-Halved l' (LeafList.make junk) valid (omega arith) in
            rw (full, e)
              (Halved-Ranges k v a l next lo hi front back halved valid within count
                (omega (arith, length-set-le k v l, f.small)) reads)
        | inr fits ↦ (
          leaf a l' next,
          none,
          rw fits,
          record { valid = valid; within = within; small = ground (arith, valid.counted) },
          λ q r x y e. ground (arith, reads q),
        )
      ]
