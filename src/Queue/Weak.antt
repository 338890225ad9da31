-- ===== src/Queue/Weak.antt =====
-- python/scheduler/priority_queue.py: the order that the dataclass of the items derives.
use ai_infrastructure_platfo.Prelude.{◌≡◌, true, false, arith, Bool-cases, inl, inr}
use ai_infrastructure_platfo.Floats.{Floats, FloatOrder}
use ai_infrastructure_platfo.Heapq.Sorted.{WeakOrder}
use ai_infrastructure_platfo.Queue.Basic.{PrioritizedItem, item_lt}

module _ {F : Type 0} ⦃fl : Floats F⦄ (fo : FloatOrder fl) where
  lt-asym : (a b : F) → fl.lt a b ≡ true → fl.lt b a ≡ false
  lt-asym a b h = ground (arith, fo.lt_irrefl a, fo.lt_trans a b a)

  -- What is not below from c to b and from b to a is not below from c to a.
  not-lt_trans : (a b c : F) → fl.lt b a ≡ false → fl.lt c b ≡ false → fl.lt c a ≡ false
  not-lt_trans a b c h k = elim (Bool-cases (fl.lt a b)) [
    | inl below ↦ ground (arith, fo.lt_trans c a b)
    | inr equal ↦ cc (fo.lt_connected a b equal h)
  ]

module _ {F P : Type 0} ⦃fl : Floats F⦄ (fo : FloatOrder fl) where
  item_lt-asym : (x y : PrioritizedItem F P) → item_lt x y ≡ true → item_lt y x ≡ false
  unfolding item_lt
  item_lt-asym x y h = ground (
    arith,
    fo.eq_iff x.priority y.priority,
    fo.eq_iff y.priority x.priority,
    lt-asym fo x.priority y.priority,
    lt-asym fo x.enqueue_time y.enqueue_time,
  )

  item_lt-steps :
      (x y z : PrioritizedItem F P)
      → item_lt y x ≡ false
      → item_lt z y ≡ false
      → item_lt z x ≡ false
  unfolding item_lt
  item_lt-steps x y z h k = ground (
    arith,
    fo.eq_iff y.priority x.priority,
    fo.eq_iff z.priority y.priority,
    fo.eq_iff z.priority x.priority,
    fo.lt_connected y.priority z.priority,
    fo.lt_connected x.priority y.priority,
    not-lt_trans fo x.priority y.priority z.priority,
    not-lt_trans fo x.enqueue_time y.enqueue_time z.enqueue_time,
  )

  -- By finite priorities and times the items are in a strict weak order, so they can be sorted.
  pub item_lt-WeakOrder : WeakOrder (item_lt {F = F} {P = P})
  item_lt-WeakOrder = record { asym = item_lt-asym; steps = item_lt-steps }
