-- ===== src/Mt104/Ranges.antt =====
-- The columns of a direct debit's rows are about the fields of a range, wherever that stands.
use quackiso.Base.{
  >>=-cong, ℕ, ◌+◌, ◌≡◌, refl, sym, ap, ◌∙◌, List, [], ◌∷◌, ◌++◌, append_assoc, Option, some, Bytes,
  codes, length, length-append, arith, Result, ok, ◌>>=◌,
}
use quackiso.Base.Int.{ℤ}
use quackiso.Mt.Error.{MtError}
use quackiso.Mt.Fields.{Field, get_range}
use quackiso.Mt.Fields.Ranges.{
  Sequence, fields_of, all_fields, spans_from, get_range-middle, get_range-whole,
}
use quackiso.Mt.Parties.{ccy_amount_in}
use quackiso.Mt.Parties.Ranges.{
  find_in-range, all_in-range, instructing_party-range, customer-range, party_in-range,
  party_with_option-range, ccy_amount_in-range,
}
use quackiso.Mt104.{
  Template, Effective, Mt104Row, creditor_tags, sum_in, template_of, stated, effective,
  transaction_of, row_of_span, rows_of_spans,
}

module _ (fs gs : List Field) (r q : ℕ × ℕ) (same : get_range fs r ≡ get_range gs q) where
  pub stated-range : stated fs r ≡ stated gs q
  unfolding stated
  stated-range =
      rw
        (
          find_in-range fs gs r q same (codes "21E"),
          find_in-range fs gs r q same (codes "26T"),
          find_in-range fs gs r q same (codes "71A"),
          find_in-range fs gs r q same (codes "77B"),
          instructing_party-range fs gs r q same,
          customer-range fs gs r q same creditor_tags,
          party_in-range fs gs r q same (codes "52"),
        )
        refl

  transaction_of-range :
      (instructed collected : Option Bytes × Option ℤ)
      → transaction_of fs r instructed collected ≡ transaction_of gs q instructed collected
  unfolding transaction_of
  transaction_of-range instructed collected =
      rw
        (
          find_in-range fs gs r q same (codes "21"),
          find_in-range fs gs r q same (codes "21C"),
          find_in-range fs gs r q same (codes "21D"),
          find_in-range fs gs r q same (codes "36"),
          find_in-range fs gs r q same (codes "70"),
          find_in-range fs gs r q same (codes "71F"),
          find_in-range fs gs r q same (codes "71G"),
          all_in-range fs gs r q same (codes "23E"),
          party_in-range fs gs r q same (codes "57"),
          party_with_option-range fs gs r q same (codes "59"),
        )
        refl

  pub sum_in-range : (where_ : Field → Bytes × ℕ) → sum_in fs r where_ ≡ sum_in gs q where_
  unfolding sum_in
  sum_in-range where_ = rw (sum_in, find_in-range fs gs r q same (codes "19")) refl

  row_of_span-range :
      (where_ : Field → Bytes × ℕ) (template : Template) (head : Effective)
      → row_of_span fs where_ template head r ≡ row_of_span gs where_ template head q
  unfolding row_of_span
  row_of_span-range where_ template head =
      rw
        (
          row_of_span,
          ccy_amount_in-range fs gs r q same (codes "33B") where_,
          ccy_amount_in-range fs gs r q same (codes "32B") where_,
          stated-range,
        )
        (>>=-cong (ccy_amount_in gs q (codes "33B") where_) _ _ λ instructed.
          >>=-cong (ccy_amount_in gs q (codes "32B") where_) _ _ λ collected.
            ap
              (λ t. ok (record {
                template = template;
                effective = effective head (stated gs q);
                transaction = some t;
              }))
              (transaction_of-range instructed collected))

-- The columns of the header of the one template, and those of the settlement of the other.
unfoldable pub with_settlement : Template → Template → Template
with_settlement head settle = record head {
  sum_senders_charges = settle.sum_senders_charges;
  sum_receivers_charges = settle.sum_receivers_charges;
  senders_correspondent = settle.senders_correspondent;
}

module _ (fs front back : List Field) (head settle head' settle' : ℕ × ℕ)
    (same : get_range fs head ≡ get_range front head')
    (same' : get_range fs settle ≡ get_range back settle') where
  pub template_of-ranges :
      (msg source : Bytes) (total : Option Bytes × Option ℤ) (sum : Option ℤ)
      → template_of msg fs source head settle total sum
        ≡ with_settlement
            (template_of msg front source head' head' total sum)
            (template_of msg back source settle' settle' total sum)
  unfolding template_of with_settlement
  template_of-ranges msg source total sum =
      rw
        (
          find_in-range fs front head head' same (codes "20"),
          find_in-range fs front head head' same (codes "21R"),
          find_in-range fs front head head' same (codes "30"),
          find_in-range fs front head head' same (codes "72"),
          party_in-range fs front head head' same (codes "51A"),
          find_in-range fs back settle settle' same' (codes "71F"),
          find_in-range fs back settle settle' same' (codes "71G"),
          party_in-range fs back settle settle' same' (codes "53"),
        )
        refl

-- The rows of the transactions, each read by itself.
unfoldable pub rows_of_sequences :
    (Field → Bytes × ℕ) → Template → Effective → List Sequence → Result MtError (List Mt104Row)
rows_of_sequences where_ template head [] = ok []
rows_of_sequences where_ template head (s ∷ ss) =
    row_of_span (fields_of s) where_ template head (0, length (fields_of s)) >>= λ row.
    rows_of_sequences where_ template head ss >>= λ rows. ok (row ∷ rows)

pub rows_of_spans-sequences :
    (where_ : Field → Bytes × ℕ) (template : Template) (head : Effective) (pre post : List Field)
    (ss : List Sequence) (k : ℕ)
    → k ≡ length pre
    → rows_of_spans (pre ++ (all_fields ss ++ post)) where_ template head (spans_from k ss)
      ≡ rows_of_sequences where_ template head ss
unfolding rows_of_spans rows_of_sequences
rows_of_spans-sequences where_ template head pre post [] k e = refl
rows_of_spans-sequences where_ template head pre post (s ∷ ss) k e =
    let own = fields_of s in
    let behind = all_fields ss ++ post in
    let next = k + length own in
    ap (λ fs. rows_of_spans fs where_ template head ((k, next) ∷ spans_from next ss))
      (ap (λ fs. pre ++ fs) (append_assoc own (all_fields ss) post))
    ∙ rw
        (row_of_span-range (pre ++ (own ++ behind)) own (k, next) (0, length own)
          (get_range-middle pre own behind k next e (omega (arith, e)) ∙ sym (get_range-whole own))
          where_ template head)
        (>>=-cong (row_of_span own where_ template head (0, length own)) _ _ λ row.
          ap (λ (m : Result MtError (List Mt104Row)). m >>= λ rows. ok (row ∷ rows))
            (ap (λ fs. rows_of_spans fs where_ template head (spans_from next ss))
                (sym (append_assoc pre own behind))
              ∙ rows_of_spans-sequences where_ template head (pre ++ own) post ss next
                  (omega (arith, e, length-append pre own))))
