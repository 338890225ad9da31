-- ===== src/Patch.antt =====
-- scripts/patch_registry.py and scripts/patch_init.py: the regular expressions that the scripts use,
-- as lists of pieces. In all of them what follows `\s*`, `\w+` or `[^c]*` cannot begin with a
-- character of that class, so the longest match of the piece is the only one to try.
pub mod Found
pub mod Kept
pub mod Doubled
pub mod Registry
pub mod Init
use ai_infrastructure_platfo.Prelude.{
  ℕ, zero, suc, ◌+◌, ◌-◌, Bool, true, false, ◌&&◌, ◌||◌, not, Option, none, some, List, [], ◌∷◌,
  ◌++◌, ltb, leb, length, take, drop, ◌==◌, if◌then◌else◌,
}
use ai_infrastructure_platfo.Codes.{Name, starts_with, ends_with}

-- A literal; `\s*`; `\w+`; `\w+suffix` before a character that is not of a word; `[^c]*` at the end.
pub data Piece : Type 0 where
  lit : Name → Piece
  spaces : Piece
  word : Piece
  word_with : Name → Piece
  all_but : ℕ → Piece

-- The characters of `\s`
unfoldable pub is_space : ℕ → Bool
is_space c =
    c == b' '
    || leb 9 c && leb c 13
    || leb 28 c && leb c 31
    || c == 0x85
    || c == 0xa0
    || c == 0x1680
    || leb 0x2000 c && leb c 0x200a
    || c == 0x2028
    || c == 0x2029
    || c == 0x202f
    || c == 0x205f
    || c == 0x3000

-- The longest start of characters that pass the test, and the rest.
unfoldable pub span : (ℕ → Bool) → Name → Name × Name
span p [] = ([], [])
span p (c ∷ cs) = let (xs, ys) = span p cs in if p c then (c ∷ xs, ys) else ([], c ∷ cs)

-- `is_word` has the characters of `\w`.
module _ (is_word : ℕ → Bool) where
  -- What is left after a match at the start.
  unfoldable pub match_at : List Piece → Name → Option Name
  unfolding span is_space starts_with ends_with
  match_at [] s = some s
  match_at (lit w ∷ ps) s =
      let rest = match_at ps (drop (length w) s) in if starts_with s w then rest else none
  match_at (spaces ∷ ps) s = match_at ps (span is_space s).1
  match_at (word ∷ ps) s =
      let rest = match_at ps (span is_word s).1 in
      if ltb 0 (length (span is_word s).0) then rest else none
  match_at (word_with suffix ∷ ps) s =
      let rest = match_at ps (span is_word s).1 in
      if ltb (length suffix) (length (span is_word s).0) && ends_with (span is_word s).0 suffix
      then rest
      else none
  match_at (all_but c ∷ ps) s = match_at ps (span (λ d. not (d == c)) s).1

  abbrev pub is_some : Option Name → Bool
  is_some none = false
  is_some (some s) = true

  -- `re.search(ps, s)` as a test; `w in s` is the search for one literal.
  unfoldable pub search_for : List Piece → Name → Bool
  unfolding match_at
  search_for ps [] = is_some (match_at ps [])
  search_for ps (c ∷ cs) = is_some (match_at ps (c ∷ cs)) || search_for ps cs

  abbrev pub occurs : Name → Name → Bool
  occurs w s = search_for (lit w ∷ []) s

  -- `re.sub(ps, "", s)` for a `ps` that does not match the empty text; `skip` characters belong to
  -- the last match.
  unfoldable pub delete_from : ℕ → List Piece → Name → Name
  unfolding match_at
  delete_from skip ps [] = []
  delete_from (suc skip) ps (c ∷ cs) = delete_from skip ps cs
  delete_from zero ps (c ∷ cs) = elim (match_at ps (c ∷ cs)) [
    | some rest ↦ delete_from (length cs - length rest) ps cs
    | none ↦ c ∷ delete_from zero ps cs
  ]

  -- The text with `text` put in after the first match.
  unfoldable pub insert_after : List Piece → Name → Name → Option Name
  unfolding match_at
  insert_after ps text [] = elim (match_at ps []) [ some rest ↦ some (text ++ rest) | none ↦ none ]
  insert_after ps text (c ∷ cs) = elim (match_at ps (c ∷ cs)) [
    | some rest ↦ some (take (length (c ∷ cs) - length rest) (c ∷ cs) ++ (text ++ rest))
    | none ↦ elim (insert_after ps text cs) [ some s ↦ some (c ∷ s) | none ↦ none ]
  ]
