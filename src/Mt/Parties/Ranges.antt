-- ===== src/Mt/Parties/Ranges.antt =====
-- The helpers of the readers look at the fields of a range, and not at where it stands.
use quackiso.Base.{
  ℕ, ◌≡◌, refl, ap, List, [], ◌∷◌, Option, none, some, Bytes, codes, and_then, Option-cases, inl,
  inr,
}
use quackiso.Mt.Fields.{Field, get_range, find, find_in, values, all_in}
use quackiso.Mt.Parties.{
  first_in, instructing_party, customer, with_option, party, party_in, party_with_option,
  ccy_amount_in,
}

module _ (fs gs : List Field) (r q : ℕ × ℕ) (same : get_range fs r ≡ get_range gs q) where
  pub find_in-range : (key : Bytes) → find_in fs r key ≡ find_in gs q key
  unfolding find_in
  find_in-range key =
      ap (λ (o : Option (List Field)). elim o [ none ↦ none | some part ↦ find part key ]) same

  pub all_in-range : (key : Bytes) → all_in fs r key ≡ all_in gs q key
  unfolding all_in
  all_in-range key =
      ap
        (λ (o : Option (List Field)). elim o as (λ _. List Bytes) [
          | none ↦ []
          | some part ↦ values part key
        ])
        same

  first_in-range : (tags : List Bytes) → first_in fs r tags ≡ first_in gs q tags
  unfolding first_in
  first_in-range [] = refl
  first_in-range (tag ∷ tags) = elim (Option-cases (find_in gs q tag)) [
    | inl missing ↦ rw (first_in, find_in-range tag, missing) (first_in-range tags)
    | inr (f, found) ↦ rw (first_in, find_in-range tag, found) refl
  ]

  pub instructing_party-range : instructing_party fs r ≡ instructing_party gs q
  unfolding instructing_party
  instructing_party-range =
      ap (λ o. and_then o (λ f. (party f.tag f.value).0))
        (first_in-range (codes "50C" ∷ codes "50L" ∷ []))

  pub customer-range : (tags : List Bytes) → customer fs r tags ≡ customer gs q tags
  unfolding customer
  customer-range tags = ap with_option (first_in-range tags)

  pub party_with_option-range :
      (key : Bytes) → party_with_option fs r key ≡ party_with_option gs q key
  unfolding party_with_option
  party_with_option-range key = ap with_option (find_in-range key)

  pub party_in-range : (key : Bytes) → party_in fs r key ≡ party_in gs q key
  unfolding party_in
  party_in-range key = elim (Option-cases (find_in gs q key)) [
    | inl missing ↦ rw (party_in, find_in-range key, missing) refl
    | inr (f, found) ↦ rw (party_in, find_in-range key, found) refl
  ]

  pub ccy_amount_in-range :
      (tag : Bytes) (at : Field → Bytes × ℕ) → ccy_amount_in fs r tag at ≡ ccy_amount_in gs q tag at
  unfolding ccy_amount_in
  ccy_amount_in-range tag at = elim (Option-cases (find_in gs q tag)) [
    | inl missing ↦ rw (ccy_amount_in, find_in-range tag, missing) refl
    | inr (f, found) ↦ rw (ccy_amount_in, find_in-range tag, found) refl
  ]
