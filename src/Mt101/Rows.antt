-- ===== src/Mt101/Rows.antt =====
-- The rows of a request for transfer that is given as its header and its transactions.
use quackiso.Base.{
  >>=-cong, ℕ, ◌+◌, ◌≡◌, refl, sym, ap, ◌∙◌, List, [], ◌∷◌, ◌++◌, append_assoc, Option, none, some,
  Bytes, codes, All, length, length-append, arith, Result, ok, ◌>>=◌, false,
}
use quackiso.Base.Int.{ℤ}
use quackiso.Text.{str_eq}
use quackiso.Mt.Error.{MtError}
use quackiso.Mt.Fields.{Field, get_range}
use quackiso.Mt.Fields.Ranges.{
  Sequence, IsSequence, fields_of, all_fields, spans_from, get_range-middle, get_range-whole,
  sequences-written,
}
use quackiso.Mt.Parties.{ccy_amount_in}
use quackiso.Mt.Parties.Ranges.{
  find_in-range, all_in-range, instructing_party-range, customer-range, party_in-range,
  party_with_option-range, ccy_amount_in-range,
}
use quackiso.Mt101.{
  ordering, Template, Effective, Mt101Row, head_span, template_of, stated, effective,
  transaction_of, row_of_span, rows_of_spans, rows_or_header, rows_from_message,
}

module _ (fs gs : List Field) (r q : ℕ × ℕ) (same : get_range fs r ≡ get_range gs q) where
  pub stated-range : stated fs r ≡ stated gs q
  unfolding stated
  stated-range =
      rw
        (
          instructing_party-range fs gs r q same,
          customer-range fs gs r q same ordering,
          party_in-range fs gs r q same (codes "52"),
        )
        refl

  transaction_of-range :
      (instructed settled : Option Bytes × Option ℤ)
      → transaction_of fs r instructed settled ≡ transaction_of gs q instructed settled
  unfolding transaction_of
  transaction_of-range instructed settled =
      rw
        (
          find_in-range fs gs r q same (codes "21"),
          find_in-range fs gs r q same (codes "21F"),
          find_in-range fs gs r q same (codes "36"),
          find_in-range fs gs r q same (codes "70"),
          find_in-range fs gs r q same (codes "71A"),
          find_in-range fs gs r q same (codes "25A"),
          find_in-range fs gs r q same (codes "77B"),
          all_in-range fs gs r q same (codes "23E"),
          party_in-range fs gs r q same (codes "56"),
          party_in-range fs gs r q same (codes "57"),
          party_with_option-range fs gs r q same (codes "59"),
        )
        refl

  template_of-range :
      (msg source : Bytes) → template_of msg fs source r ≡ template_of msg gs source q
  unfolding template_of
  template_of-range msg source =
      rw
        (
          find_in-range fs gs r q same (codes "20"),
          find_in-range fs gs r q same (codes "21R"),
          find_in-range fs gs r q same (codes "28D"),
          find_in-range fs gs r q same (codes "30"),
          find_in-range fs gs r q same (codes "25"),
          party_in-range fs gs r q same (codes "51A"),
        )
        refl

  -- A row is about the fields of its span, wherever that stands.
  row_of_span-range :
      (where_ : Field → Bytes × ℕ) (template : Template) (head : Effective)
      → row_of_span fs where_ template head r ≡ row_of_span gs where_ template head q
  unfolding row_of_span
  row_of_span-range where_ template head =
      rw
        (
          row_of_span,
          ccy_amount_in-range fs gs r q same (codes "33B") where_,
          ccy_amount_in-range fs gs r q same (codes "32B") where_,
          stated-range,
        )
        (>>=-cong (ccy_amount_in gs q (codes "33B") where_) _ _ λ instructed.
          >>=-cong (ccy_amount_in gs q (codes "32B") where_) _ _ λ settled.
            ap
              (λ t. ok (record {
                template = template;
                effective = effective head (stated gs q);
                transaction = some t;
              }))
              (transaction_of-range instructed settled))

-- The rows of the transactions, each read by itself.
unfoldable pub rows_of_sequences :
    (Field → Bytes × ℕ) → Template → Effective → List Sequence → Result MtError (List Mt101Row)
rows_of_sequences where_ template head [] = ok []
rows_of_sequences where_ template head (s ∷ ss) =
    row_of_span (fields_of s) where_ template head (0, length (fields_of s)) >>= λ row.
    rows_of_sequences where_ template head ss >>= λ rows. ok (row ∷ rows)

rows_of_spans-sequences :
    (where_ : Field → Bytes × ℕ) (template : Template) (head : Effective) (pre : List Field)
    (ss : List Sequence) (k : ℕ)
    → k ≡ length pre
    → rows_of_spans (pre ++ all_fields ss) where_ template head (spans_from k ss)
      ≡ rows_of_sequences where_ template head ss
unfolding rows_of_spans rows_of_sequences
rows_of_spans-sequences where_ template head pre [] k e = refl
rows_of_spans-sequences where_ template head pre (s ∷ ss) k e =
    rw
      (row_of_span-range (pre ++ (fields_of s ++ all_fields ss)) (fields_of s)
        (k, k + length (fields_of s)) (0, length (fields_of s))
        (get_range-middle pre (fields_of s) (all_fields ss) k (k + length (fields_of s)) e
            (omega (arith, e))
          ∙ sym (get_range-whole (fields_of s)))
        where_ template head)
      (>>=-cong (row_of_span (fields_of s) where_ template head (0, length (fields_of s))) _ _
        λ row.
          ap (λ (m : Result MtError (List Mt101Row)). m >>= λ rows. ok (row ∷ rows))
            (ap
                (λ fs.
                  rows_of_spans fs where_ template head (spans_from (k + length (fields_of s)) ss))
                (sym (append_assoc pre (fields_of s) (all_fields ss)))
              ∙ rows_of_spans-sequences where_ template head (pre ++ fields_of s) ss
                  (k + length (fields_of s)) (omega (arith, e, length-append pre (fields_of s)))))

-- The rows of a header and its transactions: one row for each transaction, or one for the header.
unfoldable pub rows_of_parts :
    Bytes
    → List Field
    → Bytes
    → (Field → Bytes × ℕ)
    → List Sequence
    → Result MtError (List Mt101Row)
rows_of_parts msg head source where_ [] = ok (
    record {
      template = template_of msg head source (0, length head);
      effective = stated head (0, length head);
      transaction = none;
    }
    ∷ [])
rows_of_parts msg head source where_ (s ∷ ss) =
    rows_of_sequences where_ (template_of msg head source (0, length head))
      (stated head (0, length head)) (s ∷ ss)

get_range-head :
    (head : List Field) (ss : List Sequence)
    → get_range (head ++ all_fields ss) (0, length head) ≡ get_range head (0, length head)
get_range-head head ss =
    get_range-middle [] head (all_fields ss) 0 (length head) refl (omega arith)
    ∙ sym (get_range-whole head)

head_span-written :
    (head : List Field) (ss : List Sequence)
    → head_span (head ++ all_fields ss) (spans_from (length head) ss) ≡ (0, length head)
unfolding head_span
head_span-written head [] = ap (λ n. (0, n)) (omega (arith, length-append head []))
head_span-written head (s ∷ ss) = refl

rows_or_header-written :
    (msg : Bytes) (head : List Field) (ss : List Sequence) (source : Bytes)
    (where_ : Field → Bytes × ℕ)
    → rows_or_header
        (head ++ all_fields ss)
        where_
        (template_of msg head source (0, length head))
        (stated head (0, length head))
        (spans_from (length head) ss)
      ≡ rows_of_parts msg head source where_ ss
unfolding rows_or_header rows_of_parts
rows_or_header-written msg head [] source where_ = refl
rows_or_header-written msg head (s ∷ ss) source where_ =
    rows_of_spans-sequences where_ (template_of msg head source (0, length head))
      (stated head (0, length head)) head (s ∷ ss) (length head) refl

-- When fields without tag 21 (the header) stand in front of transactions that each start with a
-- field of tag 21 and have no further one, the rows of the message are those of its transactions,
-- each read from its own fields alone, with the header's columns read from the header alone; and
-- a message without a transaction is one row of its header.
pub request_rows-sequences :
    (msg : Bytes) (head : List Field) (ss : List Sequence) (source : Bytes)
    (where_ : Field → Bytes × ℕ)
    → All (λ (f : Field). str_eq f.tag (codes "21") ≡ false) head
    → All (IsSequence (codes "21")) ss
    → rows_from_message msg (head ++ all_fields ss) source where_
      ≡ rows_of_parts msg head source where_ ss
unfolding rows_from_message
request_rows-sequences msg head ss source where_ h hs =
    rw
      (
        sequences-written (codes "21") head ss h hs,
        head_span-written head ss,
        template_of-range (head ++ all_fields ss) head (0, length head) (0, length head)
            (get_range-head head ss) msg source,
        stated-range (head ++ all_fields ss) head (0, length head) (0, length head)
            (get_range-head head ss),
      )
      (rows_or_header-written msg head ss source where_)
