-- ===== src/Mt104/Rows.antt =====
-- The rows of a direct debit that is given as its header, its transactions and its settlement.
use quackiso.Base.{
  >>=-cong, ℕ, ◌+◌, ◌≡◌, refl, sym, ap, ◌∙◌, false, List, [], ◌∷◌, ◌++◌, append_assoc, append-nil,
  Option, some, Bytes, codes, All, All-append, length, length-append, arith, Result, ◌>>=◌,
}
use quackiso.Text.{str_eq}
use quackiso.Mt.Error.{MtError}
use quackiso.Mt.Fields.{Field, get_range, sequences}
use quackiso.Mt.Fields.Ranges.{
  Sequence, IsSequence, fields_of, all_fields, spans_from, get_range-middle, get_range-whole,
  sequences-written,
}
use quackiso.Mt.Parties.{ccy_amount_in}
use quackiso.Mt.Parties.Ranges.{ccy_amount_in-range}
use quackiso.Mt101.{head_span}
use quackiso.Mt104.{
  Template, Effective, Mt104Row, settlement_start, cut_last, settlement_span, sum_in, template_of,
  stated, rows_of_spans, rows_or_header, rows_from_message,
}
use quackiso.Mt104.Settlement.{
  Untagged, Settles, Debit, IsDebit, settlement_start-behind, with_tail, all_fields-tail,
  cut_last-spans,
}
use quackiso.Mt104.Ranges.{
  stated-range, sum_in-range, with_settlement, template_of-ranges, rows_of_sequences,
  rows_of_spans-sequences,
}

-- The rows of a message, by the spans of its header, its transactions and its settlement.
abbrev rows_of_ranges :
    Bytes
    → List Field
    → Bytes
    → (Field → Bytes × ℕ)
    → List (ℕ × ℕ)
    → ℕ × ℕ
    → ℕ × ℕ
    → Result MtError (List Mt104Row)
rows_of_ranges msg fields source where_ spans head settle = do
  total ← ccy_amount_in fields settle (codes "32B") where_
  sum ← sum_in fields settle where_
  rows_or_header fields where_ (template_of msg fields source head settle total sum)
      (stated fields head) spans

-- The rows of a header, its transactions and its settlement, each read from its own fields.
unfoldable pub debits_of_parts :
    Bytes
    → List Field
    → List Sequence
    → List Field
    → Bytes
    → (Field → Bytes × ℕ)
    → Result MtError (List Mt104Row)
debits_of_parts msg head ss settle source where_ =
    let all_head : ℕ × ℕ = (0, length head) in
    let all_settle : ℕ × ℕ = (0, length settle) in
    do
      total ← ccy_amount_in settle all_settle (codes "32B") where_
      sum ← sum_in settle all_settle where_
      let template =
          with_settlement (template_of msg head source all_head all_head total sum)
            (template_of msg settle source all_settle all_settle total sum)
      rows_of_sequences where_ template (stated head all_head) ss

rows_or_header-spans :
    (fields : List Field) (where_ : Field → Bytes × ℕ) (template : Template) (head : Effective)
    (ss : List Sequence) (last : Sequence) (k : ℕ)
    → rows_or_header fields where_ template head (spans_from k (ss ++ last ∷ []))
      ≡ rows_of_spans fields where_ template head (spans_from k (ss ++ last ∷ []))
unfolding rows_or_header
rows_or_header-spans fields where_ template head [] last k = refl
rows_or_header-spans fields where_ template head (s ∷ ss) last k = refl

head_span-spans :
    (fields : List Field) (ss : List Sequence) (last : Sequence) (k : ℕ)
    → head_span fields (spans_from k (ss ++ last ∷ [])) ≡ (0, k)
unfolding head_span
head_span-spans fields [] last k = refl
head_span-spans fields (s ∷ ss) last k = refl

module _ (msg : Bytes) (head : List Field) (ss : List Sequence) (last : Sequence)
    (settle : List Field) (source : Bytes) (where_ : Field → Bytes × ℕ) where
  abbrev debits : List Sequence
  debits = ss ++ last ∷ []

  abbrev fields : List Field
  fields = head ++ (all_fields debits ++ settle)

  abbrev start : ℕ
  start = length head + length (all_fields debits)

  get_range-head : get_range fields (0, length head) ≡ get_range head (0, length head)
  get_range-head =
      get_range-middle [] head (all_fields debits ++ settle) 0 (length head) refl (omega arith)
      ∙ sym (get_range-whole head)

  get_range-settle :
      get_range fields (start, start + length settle) ≡ get_range settle (0, length settle)
  get_range-settle =
      ap (λ fs. get_range fs (start, start + length settle))
        (sym (append_assoc head (all_fields debits) settle)
          ∙ ap (λ gs. (head ++ all_fields debits) ++ gs) (sym (append-nil settle)))
      ∙ get_range-middle (head ++ all_fields debits) settle [] start (start + length settle)
          (sym (length-append head (all_fields debits)))
          (omega (arith, length-append head (all_fields debits)))
      ∙ sym (get_range-whole settle)

  rows_of_ranges-parts :
      rows_of_ranges msg fields source where_
        (spans_from (length head) debits)
        (0, length head)
        (start, start + length settle)
      ≡ debits_of_parts msg head debits settle source where_
  unfolding debits_of_parts
  rows_of_ranges-parts =
      rw
        (
          ccy_amount_in-range fields settle (start, start + length settle) (0, length settle)
              get_range-settle (codes "32B") where_,
          sum_in-range fields settle (start, start + length settle) (0, length settle)
              get_range-settle where_,
        )
        (>>=-cong (ccy_amount_in settle (0, length settle) (codes "32B") where_) _ _ λ total.
          >>=-cong (sum_in settle (0, length settle) where_) _ _ λ sum.
            rw
              (
                template_of-ranges fields head settle (0, length head)
                    (start, start + length settle) (0, length head) (0, length settle)
                    get_range-head get_range-settle msg source total sum,
                stated-range fields head (0, length head) (0, length head) get_range-head,
                rows_or_header-spans fields where_ _ (stated head (0, length head)) ss last
                    (length head),
              )
              (rows_of_spans-sequences where_ _ (stated head (0, length head)) head settle debits
                (length head) refl))

-- The fields of a message whose last transaction is split off.
all_fields-last :
    (ss : List Sequence) (last : Sequence) (settle : List Field)
    → all_fields (ss ++ last ∷ []) ++ settle ≡ all_fields ss ++ (fields_of last ++ settle)
all_fields-last [] last settle = ap (λ fs. fs ++ settle) (append-nil (fields_of last))
all_fields-last (s ∷ ss) last settle =
    append_assoc (fields_of s) (all_fields (ss ++ last ∷ [])) settle
    ∙ ap (λ fs. fields_of s ++ fs) (all_fields-last ss last settle)
    ∙ sym (append_assoc (fields_of s) (all_fields ss) (fields_of last ++ settle))

length-all_fields :
    (ss : List Sequence) (last : Sequence)
    → length (all_fields (ss ++ last ∷ [])) ≡ length (all_fields ss) + length (fields_of last)
length-all_fields ss last =
    ap length (sym (append-nil (all_fields (ss ++ last ∷ []))) ∙ all_fields-last ss last [])
    ∙ length-append (all_fields ss) (fields_of last ++ [])
    ∙ ap (λ fs. length (all_fields ss) + length fs) (append-nil (fields_of last))

cut_last-debits :
    (head : List Field) (ss : List Sequence) (d : Debit) (settle : List Field)
    → Untagged (codes "21") head
    → All (IsSequence (codes "21")) ss
    → IsSequence (codes "21") d.debit
    → IsDebit d
    → Untagged (codes "21") settle
    → Settles settle
    → cut_last
        (head ++ (all_fields (ss ++ d.debit ∷ []) ++ settle))
        (sequences (head ++ (all_fields (ss ++ d.debit ∷ []) ++ settle)) (codes "21"))
      ≡ (
        spans_from (length head) (ss ++ d.debit ∷ []),
        some (
          length head + length (all_fields (ss ++ d.debit ∷ [])),
          length head + length (all_fields (ss ++ d.debit ∷ [])) + length settle,
        ),
      )
cut_last-debits head ss d settle h hs hd is untagged opens =
    let debits = ss ++ d.debit ∷ [] in
    let fs = head ++ (all_fields debits ++ settle) in
    let from = length head + length (all_fields ss) in
    let start = length head + length (all_fields debits) in
    let lengths = length-all_fields ss d.debit in
    ap (cut_last fs) (
      ap (λ gs. sequences (head ++ gs) (codes "21")) (all_fields-tail ss d.debit settle)
      ∙ sequences-written (codes "21") head (ss ++ with_tail d.debit settle ∷ []) h (
          All-append (IsSequence (codes "21")) ss (with_tail d.debit settle ∷ []) hs (
            (
              hd.0,
              All-append (λ (f : Field). str_eq f.tag (codes "21") ≡ false) d.debit.more settle
                  (hd.1) untagged,
            ),
            tt,
          )))
    ∙ cut_last-spans fs ss d.debit (with_tail d.debit settle) (length head) from start
        (start + length settle) refl (omega (arith, lengths))
        (omega (arith, lengths, length-append d.debit.more settle))
        (ap (λ gs. settlement_start gs (from, start + length settle))
            (ap (λ gs. head ++ gs) (all_fields-last ss d.debit settle)
              ∙ sym (append_assoc head (all_fields ss) (fields_of d.debit ++ settle)))
          ∙ settlement_start-behind (head ++ all_fields ss) settle d from (start + length settle)
              start is opens (sym (length-append head (all_fields ss))) (omega (arith, lengths))
              refl)

-- When a header without field 21 is followed by transactions that each start with a field 21 and have
-- no further one, the last of which has no field 19 and exactly one 32B, and by a settlement that
-- starts with a field 19 or 32B and has no field 21, then the rows of the message are those of the
-- transactions, each read from its own fields alone, the settlement is none of them, and its columns
-- are read from its own fields alone.
pub debit_rows-parts :
    (msg : Bytes) (head : List Field) (ss : List Sequence) (d : Debit) (settle : List Field)
    (source : Bytes) (where_ : Field → Bytes × ℕ)
    → Untagged (codes "21") head
    → All (IsSequence (codes "21")) ss
    → IsSequence (codes "21") d.debit
    → IsDebit d
    → Untagged (codes "21") settle
    → Settles settle
    → rows_from_message msg (head ++ (all_fields (ss ++ d.debit ∷ []) ++ settle)) source where_
      ≡ debits_of_parts msg head (ss ++ d.debit ∷ []) settle source where_
unfolding rows_from_message
debit_rows-parts msg head ss d settle source where_ h hs hd is untagged opens =
    let fs = head ++ (all_fields (ss ++ d.debit ∷ []) ++ settle) in
    ap
      (λ (cut : List (ℕ × ℕ) × Option (ℕ × ℕ)).
        rows_of_ranges msg fs source where_ cut.0 (head_span fs cut.0) (settlement_span fs cut.1))
      (cut_last-debits head ss d settle h hs hd is untagged opens)
    ∙ ap
        (λ span.
          rows_of_ranges msg fs source where_ (spans_from (length head) (ss ++ d.debit ∷ [])) span (
            length head + length (all_fields (ss ++ d.debit ∷ [])),
            length head + length (all_fields (ss ++ d.debit ∷ [])) + length settle,
          ))
        (head_span-spans fs ss d.debit (length head))
    ∙ rows_of_ranges-parts msg head ss d.debit settle source where_
