-- ===== src/Mt202/Sequences.antt =====
-- The two sequences of a transfer between institutions, each read by itself.
use quackiso.Base.{
  ℕ, suc, ◌≡◌, refl, sym, ap, ◌∙◌, true, false, List, [], ◌∷◌, ◌++◌, append-nil, Option, Bytes,
  codes, All, length, length-append, arith, Result, ok, ◌>>=◌, >>=-cong, Option-cases, inl, inr,
}
use quackiso.Base.Int.{ℤ}
use quackiso.Mt.Error.{MtError}
use quackiso.Mt.Fields.{Field, get_range, matches_any, position}
use quackiso.Mt.Fields.Ranges.{get_range-middle, get_range-whole}
use quackiso.Mt.Parties.Ranges.{find_in-range, all_in-range}
use quackiso.Mt202.{
  Mt202Row, text_in, join_in, date_ccy_amount_in, ccy_amount_in, party_id_account, party_id,
  b_start, row_of, row_from_message,
}

-- The columns of sequence A of the one row, and those of sequence B of the other.
unfoldable pub with_cover : Mt202Row → Mt202Row → Mt202Row
with_cover a b = record a {
  cov_ordering_customer = b.cov_ordering_customer;
  cov_ordering_institution = b.cov_ordering_institution;
  cov_intermediary_institution = b.cov_intermediary_institution;
  cov_account_with_institution = b.cov_account_with_institution;
  cov_beneficiary = b.cov_beneficiary;
  cov_remittance_info = b.cov_remittance_info;
  cov_sender_to_receiver_info = b.cov_sender_to_receiver_info;
  cov_instructed_currency = b.cov_instructed_currency;
  cov_instructed_amount = b.cov_instructed_amount;
}

module _ (fs gs : List Field) (r q : ℕ × ℕ) (same : get_range fs r ≡ get_range gs q) where
  text_in-range : (key : Bytes) → text_in fs r key ≡ text_in gs q key
  unfolding text_in
  text_in-range key = rw (find_in-range fs gs r q same key) refl

  join_in-range : (key : Bytes) → join_in fs r key ≡ join_in gs q key
  unfolding join_in
  join_in-range key = rw (all_in-range fs gs r q same key) refl

  party_id_account-range : (key : Bytes) → party_id_account fs r key ≡ party_id_account gs q key
  unfolding party_id_account
  party_id_account-range key = rw (party_id_account, find_in-range fs gs r q same key) refl

  party_id-range : (key : Bytes) → party_id fs r key ≡ party_id gs q key
  unfolding party_id
  party_id-range key = ap (λ (p : Option Bytes × Option Bytes). p.0) (party_id_account-range key)

  date_ccy_amount_in-range :
      (where_ : Field → Bytes × ℕ) → date_ccy_amount_in fs r where_ ≡ date_ccy_amount_in gs q where_
  unfolding date_ccy_amount_in
  date_ccy_amount_in-range where_ =
      rw (date_ccy_amount_in, find_in-range fs gs r q same (codes "32A")) refl

  ccy_amount_in-range :
      (key : Bytes) (where_ : Field → Bytes × ℕ)
      → ccy_amount_in fs r key where_ ≡ ccy_amount_in gs q key where_
  unfolding ccy_amount_in
  ccy_amount_in-range key where_ = rw (ccy_amount_in, find_in-range fs gs r q same key) refl

-- The row of the two sequences, each given as its fields.
unfoldable pub row_of_sequences :
    Bytes → List Field → List Field → Bytes → (Field → Bytes × ℕ) → Result MtError Mt202Row
row_of_sequences msg transfer cover source where_ =
    let a : ℕ × ℕ = (0, length transfer) in
    let b : ℕ × ℕ = (0, length cover) in
    do
      settled ← date_ccy_amount_in transfer a where_
      instructed ← ccy_amount_in cover b (codes "33B") where_
      ok (
          with_cover (row_of msg transfer source a a settled instructed)
            (row_of msg cover source b b settled instructed))

-- Fields that start with a field 50, if there are any.
abbrev pub Opens50 : List Field → Type 0
Opens50 [] = Unit
Opens50 (f ∷ fs) = matches_any f.tag (codes "50" ∷ []) ≡ true

b_start-without :
    (f : Field) (fs : List Field)
    → matches_any f.tag (codes "50" ∷ []) ≡ false
    → b_start (f ∷ fs) ≡ suc (b_start fs)
unfolding b_start position
b_start-without f fs h = elim (Option-cases (position fs (codes "50" ∷ []))) [
  | inl missing ↦ rw (b_start, position, h, missing) refl
  | inr (n, found) ↦ rw (b_start, position, h, found) refl
]

b_start-written :
    (transfer cover : List Field)
    → All (λ (f : Field). matches_any f.tag (codes "50" ∷ []) ≡ false) transfer
    → Opens50 cover
    → b_start (transfer ++ cover) ≡ length transfer
unfolding b_start position
b_start-written [] [] h o = refl
b_start-written [] (f ∷ cover) h o = rw (b_start, position, o) refl
b_start-written (f ∷ transfer) cover h o =
    b_start-without f (transfer ++ cover) (h.0) ∙ ap suc (b_start-written transfer cover (h.1) o)

module _ (fs front back : List Field) (a b a' b' : ℕ × ℕ)
    (same_a : get_range fs a ≡ get_range front a')
    (same_b : get_range fs b ≡ get_range back b') where
  row_of-ranges :
      (msg source : Bytes) (settled : Option ℤ × Option Bytes × Option ℤ)
      (instructed : Option Bytes × Option ℤ)
      → row_of msg fs source a b settled instructed
        ≡ with_cover
            (row_of msg front source a' a' settled instructed)
            (row_of msg back source b' b' settled instructed)
  unfolding row_of with_cover
  row_of-ranges msg source settled instructed =
      rw
        (
          text_in-range fs front a a' same_a (codes "20"),
          text_in-range fs front a a' same_a (codes "21"),
          text_in-range fs front a a' same_a (codes "72"),
          join_in-range fs front a a' same_a (codes "13C"),
          party_id_account-range fs front a a' same_a (codes "52"),
          party_id_account-range fs front a a' same_a (codes "53"),
          party_id_account-range fs front a a' same_a (codes "57"),
          party_id_account-range fs front a a' same_a (codes "58"),
          party_id-range fs front a a' same_a (codes "54"),
          party_id-range fs front a a' same_a (codes "56"),
          party_id_account-range fs back b b' same_b (codes "50"),
          party_id_account-range fs back b b' same_b (codes "59"),
          party_id-range fs back b b' same_b (codes "52"),
          party_id-range fs back b b' same_b (codes "56"),
          party_id-range fs back b b' same_b (codes "57"),
          text_in-range fs back b b' same_b (codes "70"),
          text_in-range fs back b b' same_b (codes "72"),
        )
        refl

-- When no field 50 stands among the fields of the transfer and those of the cover, if there are
-- any, start with one, the row of the message has the columns of the transfer read from its own
-- fields alone, and the columns of the cover from the fields of the cover alone; and a value that
-- is refused in either is the error.
pub transfer_row-sequences :
    (msg : Bytes) (transfer cover : List Field) (source : Bytes) (where_ : Field → Bytes × ℕ)
    → All (λ (f : Field). matches_any f.tag (codes "50" ∷ []) ≡ false) transfer
    → Opens50 cover
    → row_from_message msg (transfer ++ cover) source where_
      ≡ row_of_sequences msg transfer cover source where_
unfolding row_from_message row_of_sequences
transfer_row-sequences msg transfer cover source where_ h o =
    let fs = transfer ++ cover in
    let a : ℕ × ℕ = (0, length transfer) in
    let b : ℕ × ℕ = (length transfer, length fs) in
    let b' : ℕ × ℕ = (0, length cover) in
    let same_a : get_range fs a ≡ get_range transfer a =
      get_range-middle [] transfer cover 0 (length transfer) refl (omega arith)
      ∙ sym (get_range-whole transfer) in
    let same_b : get_range fs b ≡ get_range cover b' =
      ap (λ gs. get_range (transfer ++ gs) b) (sym (append-nil cover))
      ∙ get_range-middle transfer cover [] (length transfer) (length fs) refl
          (length-append transfer cover)
      ∙ sym (get_range-whole cover) in
    rw
      (
        b_start-written transfer cover h o,
        date_ccy_amount_in-range fs transfer a a same_a where_,
        ccy_amount_in-range fs cover b b' same_b (codes "33B") where_,
      )
      (>>=-cong (date_ccy_amount_in transfer a where_) _ _ λ settled.
        >>=-cong (ccy_amount_in cover b' (codes "33B") where_) _ _ λ instructed.
          ap ok
            (row_of-ranges fs transfer cover a b a b' same_a same_b msg source settled instructed))
