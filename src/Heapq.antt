-- ===== src/Heapq.antt =====
-- The standard library's `heapq` over a Python list, through what its documentation promises.
pub mod Sorted
use ai_infrastructure_platfo.Prelude.{
  ℕ, ◌+◌, ◌*◌, ◌≡◌, ◌⊎◌, Bool, false, Option, none, some, List, [], ◌∷◌, get_elem?,
}
use ai_infrastructure_platfo.Prelude.Counts.{NoneOf, SameItems}

-- `heap[k] <= heap[2*k+1]` and `heap[k] <= heap[2*k+2]` for every k
abbrev pub IsHeap : {A : Type 0} → (A → A → Bool) → List A → Type 0
IsHeap {A} less h =
    (k c : ℕ) (x y : A)
    → (c ≡ 2 * k + 1) ⊎ (c ≡ 2 * k + 2)
    → get_elem? h k ≡ some x
    → get_elem? h c ≡ some y
    → less y x ≡ false

-- The two functions that the code calls, over the items' `<`. Where an item stands in the list and
-- which of two items neither of which is smaller comes out first are left open.
pub record Heapq {A : Type 0} (less : A → A → Bool) : Type 0 where
  pub heappush : List A → A → List A
  pub heappop : List A → Option (A × List A)
  -- The heap holds the pushed item and what it held.
  pub push_items : (h : List A) (x : A) → SameItems (heappush h x) (x ∷ h)
  -- Only the empty heap has nothing to pop.
  pub pop_empty : heappop [] ≡ none
  pub pop_ready : (x : A) (h : List A) → (y : A) × (r : List A) × (heappop (x ∷ h) ≡ some (y, r))
  -- What is popped leaves the heap, and the other items stay.
  pub pop_items : (h : List A) (x : A) (r : List A) → heappop h ≡ some (x, r) → SameItems h (x ∷ r)
  -- The heap invariant is kept, and under it a smallest item is popped.
  pub push_heap : (h : List A) (x : A) → IsHeap less h → IsHeap less (heappush h x)
  pub pop_heap :
      (h : List A) (x : A) (r : List A) → IsHeap less h → heappop h ≡ some (x, r) → IsHeap less r
  pub pop_least :
      (h : List A) (x : A) (r : List A)
      → IsHeap less h
      → heappop h ≡ some (x, r)
      → NoneOf (λ y. less y x) r
