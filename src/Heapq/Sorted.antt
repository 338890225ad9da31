-- ===== src/Heapq/Sorted.antt =====
-- An instance of `Heapq` that computes: a heap that keeps its list sorted.
use mathlib.Core.Path.{subst}
use mathlib.Core.Option.{some-injective}
use ai_infrastructure_platfo.Prelude.{
  ℕ, zero, suc, ◌+◌, ◌≡◌, refl, sym, ap, ◌∙◌, Bool, true, false, Option, none, some, List, [], ◌∷◌,
  arith, get_elem?, if◌then◌else◌, Bool-cases, inl, inr,
}
use ai_infrastructure_platfo.Prelude.Counts.{NoneOf, SameItems, NoneOf-imp}
use ai_infrastructure_platfo.Heapq.{Heapq, IsHeap}

pub record WeakOrder {A : Type 0} (less : A → A → Bool) : Type 0 where
  pub asym : (x y : A) → less x y ≡ true → less y x ≡ false
  pub steps : (x y z : A) → less y x ≡ false → less z y ≡ false → less z x ≡ false

module _ {A : Type 0} (less : A → A → Bool) where
  unfoldable pub insert : A → List A → List A
  insert x [] = x ∷ []
  insert x (y ∷ ys) = if less x y then x ∷ y ∷ ys else y ∷ insert x ys

  unfoldable pub sort : List A → List A
  unfolding insert
  sort [] = []
  sort (x ∷ xs) = insert x (sort xs)

  abbrev pop_front : List A → Option (A × List A)
  pop_front [] = none
  pop_front (x ∷ xs) = some (x, xs)

  pub sort_empty : pop_front (sort []) ≡ none
  unfolding sort
  sort_empty = refl

  abbrev pub IsSorted : List A → Type 0
  IsSorted [] = Unit
  IsSorted (x ∷ xs) = NoneOf (λ y. less y x) xs × IsSorted xs

  insert-SameItems : (x : A) (xs : List A) → SameItems (insert x xs) (x ∷ xs)
  unfolding insert
  insert-SameItems x [] p = refl
  insert-SameItems x (y ∷ ys) p = ground (arith, insert-SameItems x ys p)

  pub sort-SameItems : (xs : List A) → SameItems (sort xs) xs
  unfolding sort
  sort-SameItems [] p = refl
  sort-SameItems (x ∷ xs) p = omega (arith, insert-SameItems x (sort xs) p, sort-SameItems xs p)

  insert_ready : (x : A) (xs : List A) → (y : A) × (r : List A) × (insert x xs ≡ y ∷ r)
  unfolding insert
  insert_ready x [] = (x, [], refl)
  insert_ready x (y ∷ ys) = elim (Bool-cases (less x y)) [
    | inl h ↦ (x, y ∷ ys, rw h)
    | inr h ↦ (y, insert x ys, rw h)
  ]

  sorted-at :
      (x : A) (xs : List A) (i : ℕ) (y : A)
      → NoneOf (λ y. less y x) xs
      → get_elem? xs i ≡ some y
      → less y x ≡ false
  sorted-at x [] i y n e = cc
  sorted-at x (z ∷ zs) zero y n e = ground arith
  sorted-at x (z ∷ zs) (suc i) y n e = sorted-at x zs i y (ground arith) e

  sorted-later :
      (xs : List A) (k d : ℕ) (x y : A)
      → IsSorted xs
      → get_elem? xs k ≡ some x
      → get_elem? xs (suc (d + k)) ≡ some y
      → less y x ≡ false
  sorted-later [] k d x y s e f = cc
  sorted-later (z ∷ zs) zero d x y s e f = cc (sorted-at z zs (d + 0) y s.0 f)
  sorted-later (z ∷ zs) (suc k) d x y s e f =
      sorted-later zs k d x y s.1 e (ap (get_elem? zs) (omega arith) ∙ f)

  -- Every entry of a heap's two child places stands later in the list.
  pub IsSorted-IsHeap : (xs : List A) → IsSorted xs → IsHeap less xs
  IsSorted-IsHeap xs s k c x y (inl child) e f =
      sorted-later xs k k x y s e (ap (get_elem? xs) (omega arith) ∙ f)
  IsSorted-IsHeap xs s k c x y (inr child) e f =
      sorted-later xs k (suc k) x y s e (ap (get_elem? xs) (omega arith) ∙ f)

  module _ (w : WeakOrder less) where
    not-less_trans : (x y : A) → less y x ≡ false → (z : A) → less z x ≡ true → less z y ≡ true
    not-less_trans x y h z e = elim (Bool-cases (less z y)) [
      | inl f ↦ f
      | inr f ↦ cc (w.steps x y z h f)
    ]

    insert-IsSorted : (x : A) (xs : List A) → IsSorted xs → IsSorted (insert x xs)
    unfolding insert
    insert-IsSorted x [] s = (refl, tt)
    insert-IsSorted x (y ∷ ys) s = elim (Bool-cases (less x y)) [
      | inl h ↦
          let yx = w.asym x y h in
          let others = NoneOf-imp (λ z. less z y) (λ z. less z x) ys (not-less_trans x y yx) s.0 in
          rw h (ground arith, s)
      | inr h ↦
          rw h (ground (arith, insert-SameItems x ys (λ z. less z y)), insert-IsSorted x ys s.1)
    ]

    pub sort-IsSorted : (xs : List A) → IsSorted (sort xs)
    unfolding sort
    sort-IsSorted [] = tt
    sort-IsSorted (x ∷ xs) = insert-IsSorted x (sort xs) (sort-IsSorted xs)

    pub pop_front-IsSorted :
        (l : List A) (x : A) (r : List A)
        → IsSorted l
        → pop_front l ≡ some (x, r)
        → NoneOf (λ y. less y x) r × IsSorted r
    pop_front-IsSorted [] x r s e = cc
    pop_front-IsSorted (y ∷ l) x r s e =
        subst (λ (q : A × List A). NoneOf (λ z. less z q.0) q.1 × IsSorted q.1)
          (some-injective _ _ e) s

    pub pop_ready :
        (x : A) (h : List A) → (y : A) × (r : List A) × (pop_front (sort (x ∷ h)) ≡ some (y, r))
    unfolding sort
    pop_ready x h = let ready = insert_ready x (sort h) in (ready.0, ready.1, ap pop_front ready.2)

    pub pop_items :
        (h l : List A) (x : A) (r : List A)
        → SameItems l h
        → pop_front l ≡ some (x, r)
        → SameItems h (x ∷ r)
    pop_items h [] x r same e = cc
    pop_items h (y ∷ l) x r same e =
        subst (λ (q : A × List A). SameItems h (q.0 ∷ q.1)) (some-injective _ _ e)
          (λ p. sym (same p))

    unfoldable pub sorted_heap : Heapq less
    sorted_heap = record {
      heappush = λ h x. sort (x ∷ h);
      heappop = λ h. pop_front (sort h);
      push_items = λ h x. sort-SameItems (x ∷ h);
      pop_empty = sort_empty;
      pop_ready = pop_ready;
      pop_items = λ h x r e. pop_items h (sort h) x r (sort-SameItems h) e;
      push_heap = λ h x s. IsSorted-IsHeap (sort (x ∷ h)) (sort-IsSorted (x ∷ h));
      pop_heap =
          λ h x r _ e. IsSorted-IsHeap r (pop_front-IsSorted (sort h) x r (sort-IsSorted h) e).1;
      pop_least = λ h x r _ e. (pop_front-IsSorted (sort h) x r (sort-IsSorted h) e).0;
    }
