-- ===== src/Budget/Pricing/Longest.antt =====
-- Which price `resolve_price` finds.
use alpha_swarm.Prelude.{
  ℕ, ◌≤◌, ◌≡◌, subst, Option-cases, sym, ap, ◌∙◌, ◌⊎◌, inl, inr, Bool, true, false, ◌&&◌, Option,
  none, some, [], ◌∷◌, ltb, leb, if◌then◌else◌, Bool-cases, length, arith,
}
use alpha_swarm.Budget.Pricing.{
  ModelId, ModelPrice, PricingTable, lookup, extends, longest, normalize_model_id, resolve_price,
}

-- An entry stands in the table.
abbrev pub In : ModelId × ModelPrice → PricingTable → Type 0
In e [] = ⊥
In e (x ∷ rest) = (e ≡ x) ⊎ In e rest

and_true : (b : Bool) → (b && true) ≡ b
and_true b = ground arith

module _ (is_digit is_word is_blank : ℕ → Bool) where
  -- Each key of the table that the id extends is at most as long as `best`.
  abbrev pub NoLonger : ModelId → ModelId → PricingTable → Type 0
  NoLonger model best [] = Unit
  NoLonger model best ((key, p) ∷ rest) =
      ((if extends is_digit is_word is_blank model key
          then leb (length key) (length best)
          else true)
        ≡ true)
      × NoLonger model best rest

  NoLonger-up :
      (model a b : ModelId) (t : PricingTable)
      → length a ≤ length b
      → NoLonger model a t
      → NoLonger model b t
  NoLonger-up model a b [] h n = tt
  NoLonger-up model a b ((key, p) ∷ rest) h n =
      (ground (arith, n.0), NoLonger-up model a b rest h n.1)

  -- One entry of the loop, with the test as an argument.
  abbrev take_entry :
      Bool → ModelId → ModelPrice → ModelId → ModelPrice → Option (ModelId × ModelPrice)
  take_entry b k q best bp = if b then some (k, q) else some (best, bp)

  longest_from :
      (model best key : ModelId) (bp p : ModelPrice) (t : PricingTable)
      → longest is_digit is_word is_blank model (some (best, bp)) t ≡ some (key, p)
      → (length best ≤ length key)
        × NoLonger model key t
        × ((In (key, p) t × (extends is_digit is_word is_blank model key ≡ true))
            ⊎ ((key ≡ best) × (p ≡ bp)))
  unfolding longest
  longest_from model best key bp p [] h = ground arith
  longest_from model best key bp p ((k, q) ∷ rest) h =
      let on =
        λ (b : Bool). longest is_digit is_word is_blank model (take_entry b k q best bp) rest in
      elim (Bool-cases
        (extends is_digit is_word is_blank model k && ltb (length best) (length k))) [
          | inl e ↦
              let ih = longest_from model k key q p rest (ap on (sym e) ∙ h) in
              (
                ground (arith, ih.0, e),
                (ground (arith, ih.0), ih.1),
                elim ih.2 [
                  | inl i ↦ inl (inr i.0, i.1)
                  | inr same ↦ inl (
                    inl (cc (same.0, same.1)),
                    ap (extends is_digit is_word is_blank model) same.0 ∙ ground (arith, e),
                  )
                ],
              )
          | inr e ↦
              let ih = longest_from model best key bp p rest (ap on (sym e) ∙ h) in
              (
                ih.0,
                (ground (arith, ih.0, e), ih.1),
                elim ih.2 [ inl i ↦ inl (inr i.0, i.1) | inr same ↦ inr same ],
              )
        ]

  abbrev pub NoneExtends : ModelId → PricingTable → Type 0
  NoneExtends model [] = Unit
  NoneExtends model ((key, p) ∷ rest) =
      (extends is_digit is_word is_blank model key ≡ false) × NoneExtends model rest

  -- The entry whose key the id extends and is the longest of those, if there is one.
  abbrev pub IsLongest : ModelId → Option (ModelId × ModelPrice) → PricingTable → Type 0
  IsLongest model none t = NoneExtends model t
  IsLongest model (some (key, p)) t =
      In (key, p) t × (extends is_digit is_word is_blank model key ≡ true) × NoLonger model key t

  longest-some :
      (model key : ModelId) (p : ModelPrice) (t : PricingTable)
      → longest is_digit is_word is_blank model none t ≡ some (key, p)
      → IsLongest model (some (key, p)) t
  unfolding longest
  longest-some model key p [] h = ground arith
  longest-some model key p ((k, q) ∷ rest) h =
      let on = λ (b : Bool).
        longest is_digit is_word is_blank model (if b then some (k, q) else none) rest in
      elim (Bool-cases (extends is_digit is_word is_blank model k)) [
        | inl e ↦
            let found =
              longest_from model k key q p rest
                (ap on (sym (and_true (extends is_digit is_word is_blank model k) ∙ e)) ∙ h) in
            (
              elim found.2 [ inl i ↦ inr i.0 | inr same ↦ inl (cc (same.0, same.1)) ],
              elim found.2 [
                | inl i ↦ i.1
                | inr same ↦ ap (extends is_digit is_word is_blank model) same.0 ∙ e
              ],
              (ground (arith, found.0), found.1),
            )
        | inr e ↦
            let found =
              longest-some model key p rest
                (ap on (sym (and_true (extends is_digit is_word is_blank model k) ∙ e)) ∙ h) in
            (inr found.0, found.1, (ground (arith, e), found.2))
      ]

  longest_found :
      (model best : ModelId) (bp : ModelPrice) (t : PricingTable)
      → ¬ (longest is_digit is_word is_blank model (some (best, bp)) t ≡ none)
  unfolding longest
  longest_found model best bp [] h = ground arith
  longest_found model best bp ((k, q) ∷ rest) h =
      let on =
        λ (b : Bool). longest is_digit is_word is_blank model (take_entry b k q best bp) rest in
      elim (Bool-cases
        (extends is_digit is_word is_blank model k && ltb (length best) (length k))) [
          | inl e ↦ longest_found model k q rest (ap on (sym e) ∙ h)
          | inr e ↦ longest_found model best bp rest (ap on (sym e) ∙ h)
        ]

  longest-none :
      (model : ModelId) (t : PricingTable)
      → longest is_digit is_word is_blank model none t ≡ none
      → NoneExtends model t
  unfolding longest
  longest-none model [] h = tt
  longest-none model ((k, q) ∷ rest) h =
      let on = λ (b : Bool).
        longest is_digit is_word is_blank model (if b then some (k, q) else none) rest in
      elim (Bool-cases (extends is_digit is_word is_blank model k)) [
        | inl e ↦ absurd (
            longest_found model k q rest
              (ap on (sym (and_true (extends is_digit is_word is_blank model k) ∙ e)) ∙ h))
        | inr e ↦ (
          e,
          longest-none model rest
              (ap on (sym (and_true (extends is_digit is_word is_blank model k) ∙ e)) ∙ h),
        )
      ]

  longest-IsLongest :
      (model : ModelId) (t : PricingTable)
      → IsLongest model (longest is_digit is_word is_blank model none t) t
  longest-IsLongest model t =
      let best = longest is_digit is_word is_blank model none t in
      elim (Option-cases best) [
        | inl e ↦ subst (λ b. IsLongest model b t) (sym e) (longest-none model t e)
        | inr (x, e) ↦ subst (λ b. IsLongest model b t) (sym e) (longest-some model x.0 x.1 t e)
      ]

  falls_through :
      (pricing : PricingTable) (model : ModelId)
      → lookup model pricing ≡ none
      → lookup (normalize_model_id is_digit is_word is_blank model) pricing ≡ none
      → resolve_price is_digit is_word is_blank pricing model
        ≡ longest is_digit is_word is_blank
            (normalize_model_id is_digit is_word is_blank model)
            none
            pricing
  unfolding resolve_price
  falls_through pricing model e f = ground (arith, e, f)

  -- The price of an id, whatever the table holds. An id that is a key has the key's own price. If it
  -- is not and its normalized form is, it has that one's. Otherwise the price is that of an entry
  -- whose key the normalized id extends by a version suffix and than which no such key is longer, and
  -- there is no price only if the normalized id extends no key at all.
  pub resolve_price_finds :
      (pricing : PricingTable) (model : ModelId)
      → let normalized = normalize_model_id is_digit is_word is_blank model in
        let result = resolve_price is_digit is_word is_blank pricing model in
        ((p : ModelPrice) × (lookup model pricing ≡ some p) × (result ≡ some (model, p)))
        ⊎ ((lookup model pricing ≡ none)
            × (((p : ModelPrice) × (lookup normalized pricing ≡ some p)
                  × (result ≡ some (normalized, p)))
                ⊎ ((lookup normalized pricing ≡ none) × IsLongest normalized result pricing)))
  unfolding resolve_price
  resolve_price_finds pricing model =
      let normalized = normalize_model_id is_digit is_word is_blank model in
      elim (Option-cases (lookup model pricing)) [
        | inr (p, e) ↦ inl (p, e, ground (arith, e))
        | inl e ↦ inr (
          e,
          elim (Option-cases (lookup normalized pricing)) [
            | inr (p, f) ↦ inl (p, f, ground (arith, e, f))
            | inl f ↦ inr (
              f,
              subst (λ b. IsLongest normalized b pricing) (sym (falls_through pricing model e f))
                  (longest-IsLongest normalized pricing),
            )
          ],
        )
      ]
