-- ===== src/Budget/Pricing.antt =====
-- inference/budget.py: `normalize_model_id` and `resolve_price`. A model id is the list of its code
-- points. What `re` and `str.strip` take for a digit, a word character and a blank are parameters.
pub mod Longest
use alpha_swarm.Prelude.{
  ℕ, zero, suc, Bool, true, false, ◌&&◌, ◌||◌, Option, none, some, List, [], ◌∷◌, ltb, ◌==◌,
  if◌then◌else◌, length,
}

abbrev pub ModelId : Type 0
ModelId = List ℕ

-- USD per million tokens, in units of a fixed power of ten of a dollar.
pub record ModelPrice : Type 0 where
  pub input_per_mtok : ℕ
  pub output_per_mtok : ℕ

-- The entries of the `dict`, in its order, with distinct keys.
abbrev pub PricingTable : Type 0
PricingTable = List (ModelId × ModelPrice)

abbrev pub same_id : ModelId → ModelId → Bool
same_id [] [] = true
same_id [] (d ∷ ds) = false
same_id (c ∷ cs) [] = false
same_id (c ∷ cs) (d ∷ ds) = (c == d) && same_id cs ds

-- `pricing.get(model)`
abbrev pub lookup : ModelId → PricingTable → Option ModelPrice
lookup k [] = none
lookup k ((j, p) ∷ rest) = if same_id j k then some p else lookup k rest

-- `normalized.startswith(key)`, with what follows the key
abbrev pub after_prefix : ModelId → ModelId → Option ModelId
after_prefix [] s = some s
after_prefix (c ∷ cs) [] = none
after_prefix (c ∷ cs) (d ∷ ds) = let rest = after_prefix cs ds in if c == d then rest else none

module _ (is_digit is_word is_blank : ℕ → Bool) where
  -- the next `n` characters are digits; what follows them
  abbrev digits : ℕ → ModelId → Option ModelId
  digits zero s = some s
  digits (suc n) [] = none
  digits (suc n) (c ∷ s) = let rest = digits n s in if is_digit c then rest else none

  abbrev dash : Option ModelId → Option ModelId
  dash none = none
  dash (some []) = none
  dash (some (c ∷ s)) = if c == b'-' then some s else none

  abbrev then_digits : ℕ → Option ModelId → Option ModelId
  then_digits n none = none
  then_digits n (some s) = digits n s

  abbrev at_end : Option ModelId → Bool
  at_end none = false
  at_end (some []) = true
  at_end (some (c ∷ s)) = false

  -- `_DATE_SUFFIX` matches here: `-` and eight digits, or `-`, four, `-`, two, `-`, two, and the end
  unfoldable pub date_suffix : ModelId → Bool
  date_suffix s =
      let body = dash (some s) in
      at_end (then_digits 8 body)
      || at_end (then_digits 2 (dash (then_digits 2 (dash (then_digits 4 body)))))

  -- `_DATE_SUFFIX.sub("", s)`: the leftmost match runs to the end, so there is one at most
  unfoldable pub cut_date : ModelId → ModelId
  cut_date [] = []
  cut_date (c ∷ s) = let rest = cut_date s in if date_suffix (c ∷ s) then [] else c ∷ rest

  abbrev lstrip : ModelId → ModelId
  lstrip [] = []
  lstrip (c ∷ s) = let rest = lstrip s in if is_blank c then rest else c ∷ s

  abbrev all_blank : ModelId → Bool
  all_blank [] = true
  all_blank (c ∷ s) = is_blank c && all_blank s

  abbrev rstrip : ModelId → ModelId
  rstrip [] = []
  rstrip (c ∷ s) = let rest = rstrip s in if all_blank (c ∷ s) then [] else c ∷ rest

  unfoldable pub normalize_model_id : ModelId → ModelId
  normalize_model_id model = cut_date (rstrip (lstrip model))

  -- `[\w.-]`
  abbrev tag_char : ℕ → Bool
  tag_char c = is_word c || (c == b'.') || (c == b'-')

  abbrev all_tag : ModelId → Bool
  all_tag [] = true
  all_tag (c ∷ s) = tag_char c && all_tag s

  -- `_VERSION_SUFFIX.fullmatch`: `-\d[\w.-]*` or `[:@][\w.-]+`
  unfoldable pub version_suffix : ModelId → Bool
  version_suffix [] = false
  version_suffix (c ∷ []) = false
  version_suffix (c ∷ d ∷ s) =
      ((c == b'-') && is_digit d && all_tag s)
      || (((c == b':') || (c == b'@')) && tag_char d && all_tag s)

  abbrev is_version : Option ModelId → Bool
  is_version none = false
  is_version (some rest) = version_suffix rest

  -- the key's price may stand for the id
  unfoldable pub extends : ModelId → ModelId → Bool
  extends model key = is_version (after_prefix key model)

  -- A key wins over the best so far when it is longer.
  abbrev pub longer_than : ModelId → Option (ModelId × ModelPrice) → Bool
  longer_than key none = true
  longer_than key (some (best, p)) = ltb (length best) (length key)

  -- The loop over the table.
  unfoldable pub longest :
      ModelId → Option (ModelId × ModelPrice) → PricingTable → Option (ModelId × ModelPrice)
  longest model best [] = best
  longest model best ((key, p) ∷ rest) =
      longest model (if extends model key && longer_than key best then some (key, p) else best) rest

  abbrev named : ModelId → Option ModelPrice → Option (ModelId × ModelPrice)
  named k none = none
  named k (some p) = some (k, p)

  abbrev or_else :
      Option (ModelId × ModelPrice) → Option (ModelId × ModelPrice) → Option (ModelId × ModelPrice)
  or_else (some a) b = some a
  or_else none b = b

  unfoldable pub resolve_price : PricingTable → ModelId → Option (ModelId × ModelPrice)
  resolve_price pricing model =
      let normalized = normalize_model_id model in
      or_else (named model (lookup model pricing))
        (or_else (named normalized (lookup normalized pricing)) (longest normalized none pricing))
