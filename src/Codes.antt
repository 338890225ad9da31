-- ===== src/Codes.antt =====
-- Python strings as lists of code points, with the methods of `str` that the code calls.
use Prim.Native.Char.{code}
use ai_infrastructure_platfo.Prelude.{
  ℕ, zero, suc, ◌+◌, ◌-◌, ◌/◌, ◌%◌, ◌≡◌, ◌↔◌, refl, ap, String, Bool, true, false, ◌&&◌, ◌||◌, List,
  [], ◌∷◌, ◌++◌, arith, ltb, length, Eq, ◌==◌, if◌then◌else◌, Bool-cases, inl, inr,
}

abbrev pub Name : Type 0
Name = List ℕ

abbrev pub codes : String → Name
codes String.[] = []
codes (String.◌∷◌ c s) = code c ∷ codes s

unfoldable pub same : Name → Name → Bool
same [] [] = true
same [] (d ∷ ds) = false
same (c ∷ cs) [] = false
same (c ∷ cs) (d ∷ ds) = c == d && same cs ds

same-eq : (xs ys : Name) → same xs ys ≡ true → xs ≡ ys
unfolding same
same-eq [] [] h = refl
same-eq [] (d ∷ ds) h = cc
same-eq (c ∷ cs) [] h = cc
same-eq (c ∷ cs) (d ∷ ds) h = ground (arith, same-eq cs ds)

same_self : (xs : Name) → same xs xs ≡ true
unfolding same
same_self [] = refl
same_self (c ∷ cs) = ground (arith, same_self cs)

pub same_iff : (xs ys : Name) → (same xs ys ≡ true) ↔ (xs ≡ ys)
same_iff xs ys = (same-eq xs ys, λ e. rw e (same_self ys))

instance abbrev pub name_eq : Eq Name
name_eq = record { beq = same; beq_iff = same_iff }

-- `name.startswith(prefix)`
unfoldable pub starts_with : Name → Name → Bool
starts_with xs [] = true
starts_with [] (d ∷ ds) = false
starts_with (c ∷ cs) (d ∷ ds) = c == d && starts_with cs ds

-- `name.endswith(suffix)`
unfoldable pub ends_with : Name → Name → Bool
unfolding same
ends_with [] suffix = same [] suffix
ends_with (c ∷ cs) suffix = same (c ∷ cs) suffix || ends_with cs suffix

-- `name.replace(old, new)`, from the left; `skip` characters belong to a replaced occurrence.
unfoldable pub replace_from : ℕ → Name → Name → Name → Name
replace_from skip old new [] = []
replace_from (suc skip) old new (c ∷ cs) = replace_from skip old new cs
replace_from zero old new (c ∷ cs) =
    let found = starts_with (c ∷ cs) old in
    let rest = replace_from (if found then length old - 1 else 0) old new cs in
    if found then new ++ rest else c ∷ rest

unfoldable pub replace : Name → Name → Name → Name
unfolding replace_from starts_with
replace name old new = replace_from 0 old new name

abbrev pub last : Name → ℕ
last [] = 0
last (c ∷ []) = c
last (c ∷ d ∷ cs) = last (d ∷ cs)

pub last-append : (xs : Name) (d : ℕ) (ds : Name) → last (xs ++ d ∷ ds) ≡ last (d ∷ ds)
last-append [] d ds = refl
last-append (x ∷ []) d ds = refl
last-append (x ∷ y ∷ xs) d ds = last-append (y ∷ xs) d ds

-- A name that ends with a suffix has the suffix's last character.
pub ends_with-last :
    (xs : Name) (c : ℕ) (cs : Name) → ends_with xs (c ∷ cs) ≡ true → last xs ≡ last (c ∷ cs)
unfolding ends_with
ends_with-last [] c cs h = cc (same-eq [] (c ∷ cs) h)
ends_with-last (x ∷ []) c cs h = elim (Bool-cases (same (x ∷ []) (c ∷ cs))) [
  | inl e ↦ ap last (same-eq (x ∷ []) (c ∷ cs) e)
  | inr e ↦ cc (same-eq [] (c ∷ cs) (rw e at h))
]
ends_with-last (x ∷ y ∷ xs) c cs h = elim (Bool-cases (same (x ∷ y ∷ xs) (c ∷ cs))) [
  | inl e ↦ ap last (same-eq (x ∷ y ∷ xs) (c ∷ cs) e)
  | inr e ↦ ends_with-last (y ∷ xs) c cs (rw e at h)
]

-- `text.count(sub)` for a `sub` that is not empty: occurrences that do not overlap, from the left.
-- `skip` characters belong to the last one.
unfoldable count_from : ℕ → Name → Name → ℕ
unfolding starts_with
count_from skip sub [] = 0
count_from (suc skip) sub (c ∷ cs) = count_from skip sub cs
count_from zero sub (c ∷ cs) =
    let found = starts_with (c ∷ cs) sub in
    let rest = count_from (if found then length sub - 1 else 0) sub cs in
    if found then suc rest else rest

unfoldable pub count : Name → String → ℕ
unfolding count_from
count text sub = count_from 0 (codes sub) text

-- `sub in text`
unfoldable pub contains : Name → String → Bool
unfolding count
contains text sub = ltb 0 (count text sub)

-- `str(n)` of a natural number; a number has no more digits than its value plus one.
unfoldable pub digits : ℕ → ℕ → Name → Name
digits zero n out = out
digits (suc fuel) n out =
    let more = digits fuel (n / 10) ((b'0' + n % 10) ∷ out) in
    if ltb n 10 then (b'0' + n) ∷ out else more

unfoldable pub str : ℕ → Name
unfolding digits
str n = digits (n + 1) n []

-- `separator.join(parts)`
unfoldable pub join : Name → List Name → Name
join separator [] = []
join separator (part ∷ []) = part
join separator (part ∷ next ∷ parts) = part ++ (separator ++ join separator (next ∷ parts))
