-- ===== src/Dict.antt =====
-- Python's `dict` and `set`, as the code uses them: entries in the order of insertion.
use ai_infrastructure_platfo.Prelude.{
  ◌≡◌, refl, Bool, true, false, Option, none, some, List, [], ◌∷◌, arith, Eq, if◌then◌else◌, ◌⊎◌,
  inl, inr, Bool-cases,
}

module _ {ℓ} {K : Type 0} {V : Type ℓ} ⦃e : Eq K⦄ where
  -- `d.get(k)`
  unfoldable pub get : List (K × V) → K → Option V
  get [] k = none
  get ((j, v) ∷ d) k = if e.beq j k then some v else get d k

  -- `k in d`
  unfoldable pub has : List (K × V) → K → Bool
  has [] k = false
  has ((j, v) ∷ d) k = if e.beq j k then true else has d k

  -- `d[k] = v`: an old key keeps its place, a new one goes to the end.
  unfoldable pub put : List (K × V) → K → V → List (K × V)
  put [] k v = (k, v) ∷ []
  put ((j, w) ∷ d) k v = if e.beq j k then (k, v) ∷ d else (j, w) ∷ put d k v

  -- `d.pop(k, None)`
  unfoldable pub remove : List (K × V) → K → List (K × V)
  remove [] k = []
  remove ((j, v) ∷ d) k = let rest = remove d k in if e.beq j k then rest else (j, v) ∷ rest

  pub get-put :
      (d : List (K × V)) (k j : K) (v : V)
      → get (put d k v) j ≡ (if e.beq k j then some v else get d j)
  unfolding get put
  get-put [] k j v = refl
  get-put ((i, w) ∷ d) k j v =
      ground (arith, e.beq_iff k j, e.beq_iff i k, e.beq_iff i j, get-put d k j v)

  pub has-put :
      (d : List (K × V)) (k j : K) (v : V)
      → has (put d k v) j ≡ (if e.beq k j then true else has d j)
  unfolding has put
  has-put [] k j v = refl
  has-put ((i, w) ∷ d) k j v =
      ground (arith, e.beq_iff k j, e.beq_iff i k, e.beq_iff i j, has-put d k j v)

  pub has-remove :
      (d : List (K × V)) (k j : K) → has (remove d k) j ≡ (if e.beq k j then false else has d j)
  unfolding has remove
  has-remove [] k j = ground arith
  has-remove ((i, w) ∷ d) k j =
      ground (arith, e.beq_iff k j, e.beq_iff i k, e.beq_iff i j, has-remove d k j)

  -- A key that `in` finds has a value, and only such a key.
  pub get-has :
      (d : List (K × V)) (k : K)
      → ((has d k ≡ true) × ((v : V) × (get d k ≡ some v))) ⊎ ((has d k ≡ false) × (get d k ≡ none))
  unfolding get has
  get-has [] k = inr (refl, refl)
  get-has ((i, w) ∷ d) k = elim (Bool-cases (e.beq i k)) [
    | inl h ↦ inl (rw h refl, (w, rw h refl))
    | inr h ↦ rw h (get-has d k)
  ]

module _ {K : Type 0} ⦃e : Eq K⦄ where
  -- `k in s`
  unfoldable pub contains : List K → K → Bool
  contains [] k = false
  contains (j ∷ s) k = if e.beq j k then true else contains s k

  -- `s.add(k)`
  unfoldable pub add : List K → K → List K
  add s k = if contains s k then s else k ∷ s

  -- `s.discard(k)`
  unfoldable pub discard : List K → K → List K
  discard [] k = []
  discard (j ∷ s) k = let rest = discard s k in if e.beq j k then rest else j ∷ rest

  pub contains-add :
      (s : List K) (k j : K) → contains (add s k) j ≡ (if e.beq k j then true else contains s j)
  unfolding add contains
  contains-add s k j = ground (arith, e.beq_iff k j)

  pub contains-discard :
      (s : List K) (k j : K)
      → contains (discard s k) j ≡ (if e.beq k j then false else contains s j)
  unfolding discard contains
  contains-discard [] k j = ground arith
  contains-discard (i ∷ s) k j =
      ground (arith, e.beq_iff k j, e.beq_iff i k, e.beq_iff i j, contains-discard s k j)
