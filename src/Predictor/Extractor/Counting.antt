-- ===== src/Predictor/Extractor/Counting.antt =====
-- python/predictor/feature_extractor.py: what is counted in a prompt. The regular expressions and the
-- character classes of Unicode are parameters.
use ai_infrastructure_platfo.Prelude.{
  ℕ, ◌+◌, String, Bool, ◌&&◌, ◌||◌, not, none, some, List, [], ◌∷◌, length, map, ltb, leb, max,
  ◌==◌, nat_eq, string_eq, if◌then◌else◌,
}
use ai_infrastructure_platfo.Prelude.Counts.{count_if}
use ai_infrastructure_platfo.Codes.{Name, codes, name_eq, count, contains}
use ai_infrastructure_platfo.Dict

-- The methods of `str` that look into Unicode's tables.
pub record Unicode : Type 0 where
  pub isupper : ℕ → Bool
  pub islower : ℕ → Bool
  pub isspace : ℕ → Bool
  pub isdigit : ℕ → Bool
  pub lower : Name → Name
  -- `text.split()`
  pub split : Name → List Name

-- The compiled expressions: what `findall` or `split` gives, how many matches there are, or whether
-- `search` finds one.
pub record Patterns : Type 0 where
  pub words : Name → List Name
  pub sentences : Name → List Name
  pub urls : Name → ℕ
  pub markdown : Name → Bool
  pub code_fence : Name → Bool
  pub python : Name → Bool
  pub sql : Name → Bool
  pub json : Name → Bool
  pub xml : Name → Bool
  pub yaml : Name → Bool
  pub system : Name → Bool
  pub assistant : Name → Bool
  pub user : Name → Bool
  pub capitalized : Name → ℕ
  -- the matches of each of `_LANG_HINTS`
  pub en : Name → ℕ
  pub es : Name → ℕ
  pub fr : Name → ℕ
  pub de : Name → ℕ

abbrev pub stopwords : List Name
stopwords = map codes (
    "a" ∷ "an" ∷ "the" ∷ "and" ∷ "or" ∷ "but" ∷ "if" ∷ "in" ∷ "on" ∷ "at" ∷ "to" ∷ "for" ∷ "of"
    ∷ "is" ∷ "are" ∷ "was" ∷ "were" ∷ "be" ∷ "been" ∷ "being" ∷ "it" ∷ "this" ∷ "that" ∷ "with"
    ∷ "as" ∷ "by" ∷ "from" ∷ "not" ∷ [])

abbrev pub reasoning_kw : List Name
reasoning_kw = map codes (
    "why" ∷ "how" ∷ "explain" ∷ "reason" ∷ "analyze" ∷ "compare" ∷ "evaluate" ∷ "prove" ∷ "step"
    ∷ "think" ∷ [])

-- `c in string.punctuation`
unfoldable pub is_punctuation : ℕ → Bool
is_punctuation c =
    leb 33 c && leb c 47
    || (leb 58 c && leb c 64 || (leb 91 c && leb c 96 || leb 123 c && leb c 126))

-- `set(w.lower() for w in words)`
unfoldable pub vocabulary : Unicode → List Name → List Name
unfolding Dict.add
vocabulary u [] = []
vocabulary u (w ∷ words) = Dict.add (vocabulary u words) (u.lower w)

-- `Counter(text)`
unfoldable pub counter_from : List (ℕ × ℕ) → Name → List (ℕ × ℕ)
unfolding Dict.put Dict.get
counter_from counts [] = counts
counter_from counts (c ∷ cs) =
    counter_from (Dict.put counts c (elim (Dict.get counts c) [ none ↦ 1 | some n ↦ n + 1 ])) cs

-- `max(scores, key=scores.get)` of the languages after the first `best` with its score
abbrev pub best_of : String → ℕ → List (String × ℕ) → String × ℕ
best_of best score [] = (best, score)
best_of best score ((lang, n) ∷ rest) =
    if ltb score n then best_of lang n rest else best_of best score rest

-- `_detect_language`
unfoldable pub detect_language : Patterns → Name → String
detect_language p text =
    let (best, score) =
      best_of "en" (p.en text) (("es", p.es text) ∷ ("fr", p.fr text) ∷ ("de", p.de text) ∷ []) in
    if ltb 0 score then best else "en"

-- The value of `turns`, before `max(turns, 1)`.
unfoldable pub turns_of : Name → ℕ
unfolding count
turns_of text =
    let turns = count text "user:" + count text "assistant:" + count text "system:" in
    if turns == 0 && contains text "\n" then count text "\n\n" + 1 else turns

-- `len(tokens) if tokens else max(1, word_count)`
unfoldable pub token_count_of : Unicode → Patterns → Name → ℕ
token_count_of u p text =
    let n = length (u.split text) in if n == 0 then max 1 (length (p.words text)) else n

-- `max(1, len([s for s in sentences if s.strip()]))`
unfoldable pub sentence_count_of : Unicode → Patterns → Name → ℕ
sentence_count_of u p text =
    max 1 (count_if (λ s. ltb 0 (count_if (λ c. not (u.isspace c)) s)) (p.sentences text))
