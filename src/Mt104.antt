-- ===== src/Mt104.antt =====
-- src/mt104.rs: the rows of direct debits, one for each transaction.
pub mod Settlement
pub mod Ranges
pub mod Rows
use quackiso.Base.{
  or_else, ℕ, ◌-◌, List, [], ◌∷◌, Option, none, some, Bytes, codes, leb, if◌then◌else◌, length,
  take, drop, get_elem?, and_then, Result, ok, ◌>>=◌, map_err,
}
use quackiso.Base.Int.{ℤ}
use quackiso.Text.Trim.{trim}
use quackiso.Mt.Error.{MtError, located, amount_error}
use quackiso.Mt.Dates.{date2}
use quackiso.Mt.Amount.{amount}
use quackiso.Mt.Fields.{Field, find_in, all_in, starts, sequences}
use quackiso.Mt.Headers.{direction, message_type, sender_bic, receiver_bic, user_header_field}
use quackiso.Mt.Parties.{
  first_of, instructing_party, customer, party_in, party_with_option, ccy_amount_in, joined, text,
}
use quackiso.Mt.Stream.{StreamError, Round}
use quackiso.Mt.Stream.Queue.{Stream}
use quackiso.Mt.Stream.Queue
use quackiso.Mt101.{head_span, customer_or, institution_or}

-- The options of field 50 that name the creditor collecting the money.
abbrev pub creditor_tags : List Bytes
creditor_tags = codes "50A" ∷ codes "50K" ∷ []

-- The columns that all rows of a message share: of its header, and of its settlement.
pub record Template : Type 0 where
  pub direction : Option Bytes
  pub message_type : Option Bytes
  pub sender_bic : Option Bytes
  pub receiver_bic : Option Bytes
  pub uetr : Option Bytes
  pub validation_flag : Option Bytes
  pub mur : Option Bytes
  pub sender_reference : Option Bytes
  pub customer_reference : Option Bytes
  pub requested_execution_date : Option ℤ
  pub sending_institution : Option Bytes
  pub sender_to_receiver : Option Bytes
  pub settlement_currency : Option Bytes
  pub settlement_amount : Option ℤ
  pub sum_of_amounts : Option ℤ
  pub sum_senders_charges : Option Bytes
  pub sum_receivers_charges : Option Bytes
  pub senders_correspondent : Option Bytes
  pub source_file : Option Bytes

-- The columns that a header or a transaction can state: the effective values.
pub record Effective : Type 0 where
  pub registration_reference : Option Bytes
  pub instructing_party : Option Bytes
  -- option letter, identifier, account
  pub creditor : Option Bytes × Option Bytes × Option Bytes
  -- identifier, account
  pub creditor_bank : Option Bytes × Option Bytes
  pub transaction_type_code : Option Bytes
  pub details_of_charges : Option Bytes
  pub regulatory_reporting : Option Bytes

-- The columns of one transaction.
pub record Transaction : Type 0 where
  pub tx_ref : Option Bytes
  pub instruction_codes : Option Bytes
  pub mandate_reference : Option Bytes
  pub direct_debit_reference : Option Bytes
  pub currency : Option Bytes
  pub amount : Option ℤ
  pub instructed_currency : Option Bytes
  pub instructed_amount : Option ℤ
  pub exchange_rate : Option Bytes
  pub debtor_bank : Option Bytes × Option Bytes
  pub debtor : Option Bytes × Option Bytes × Option Bytes
  pub remittance_info : Option Bytes
  pub senders_charges : Option Bytes
  pub receivers_charges : Option Bytes

-- A row of a message without a transaction has none of the columns of one.
pub record Mt104Row : Type 0 where
  pub template : Template
  pub effective : Effective
  pub transaction : Option Transaction

-- The indices of a range at which fields with the tag stand.
unfoldable pub indices_in : List Field → ℕ × ℕ → Bytes → List ℕ
indices_in fields (from, to) tag = starts (take (to - from) (drop from fields)) tag from

abbrev pub earlier : Option ℕ → Option ℕ → Option ℕ
earlier none b = b
earlier (some a) none = some a
earlier (some a) (some b) = some (if leb a b then a else b)

-- The first `:19:` or the second `:32B:`, whichever comes first.
unfoldable pub settlement_start : List Field → ℕ × ℕ → Option ℕ
settlement_start fields tail =
    earlier (first_of (indices_in fields tail (codes "19")))
      (get_elem? (indices_in fields tail (codes "32B")) 1)

-- The last transaction's span is cut where the settlement starts; the settlement is what was cut off.
unfoldable pub cut_last : List Field → List (ℕ × ℕ) → List (ℕ × ℕ) × Option (ℕ × ℕ)
cut_last fields [] = ([], none)
cut_last fields ((from, to) ∷ []) = elim (settlement_start fields (from, to)) [
  | none ↦ ((from, to) ∷ [], none)
  | some start ↦ ((from, start) ∷ [], some (start, to))
]
cut_last fields (span ∷ next ∷ spans) =
    let (rest, settlement) = cut_last fields (next ∷ spans) in (span ∷ rest, settlement)

-- `settlement.unwrap_or(fields.len()..fields.len())`
abbrev pub settlement_span : List Field → Option (ℕ × ℕ) → ℕ × ℕ
settlement_span fields none = (length fields, length fields)
settlement_span fields (some span) = span

unfoldable pub sum_in : List Field → ℕ × ℕ → (Field → Bytes × ℕ) → Result MtError (Option ℤ)
sum_in fields settle where_ = elim (find_in fields settle (codes "19")) [
  | none ↦ ok none
  | some f ↦ map_err (λ e. located (where_ f) (amount_error e)) (amount (trim f.value)) >>= λ n.
      ok (some n)
]

unfoldable pub template_of :
    Bytes → List Field → Bytes → ℕ × ℕ → ℕ × ℕ → Option Bytes × Option ℤ → Option ℤ → Template
template_of msg fields source head settle settlement sum = record {
  direction = direction msg;
  message_type = message_type msg;
  sender_bic = sender_bic msg;
  receiver_bic = receiver_bic msg;
  uetr = user_header_field msg (codes "121");
  validation_flag = user_header_field msg (codes "119");
  mur = user_header_field msg (codes "108");
  sender_reference = text (find_in fields head (codes "20"));
  customer_reference = text (find_in fields head (codes "21R"));
  requested_execution_date =
      and_then (find_in fields head (codes "30")) (λ f. date2 (trim f.value));
  sending_institution = (party_in fields head (codes "51A")).0;
  sender_to_receiver = text (find_in fields head (codes "72"));
  settlement_currency = settlement.0;
  settlement_amount = settlement.1;
  sum_of_amounts = sum;
  sum_senders_charges = text (find_in fields settle (codes "71F"));
  sum_receivers_charges = text (find_in fields settle (codes "71G"));
  senders_correspondent = (party_in fields settle (codes "53")).0;
  source_file = some source;
}

-- What the fields of a span state.
unfoldable pub stated : List Field → ℕ × ℕ → Effective
stated fields span = record {
  registration_reference = text (find_in fields span (codes "21E"));
  instructing_party = instructing_party fields span;
  creditor = customer fields span creditor_tags;
  creditor_bank = party_in fields span (codes "52");
  transaction_type_code = text (find_in fields span (codes "26T"));
  details_of_charges = text (find_in fields span (codes "71A"));
  regulatory_reporting = text (find_in fields span (codes "77B"));
}

unfoldable pub effective : Effective → Effective → Effective
effective head own = record {
  registration_reference = or_else own.registration_reference head.registration_reference;
  instructing_party = or_else own.instructing_party head.instructing_party;
  creditor = customer_or own.creditor head.creditor;
  creditor_bank = institution_or own.creditor_bank head.creditor_bank;
  transaction_type_code = or_else own.transaction_type_code head.transaction_type_code;
  details_of_charges = or_else own.details_of_charges head.details_of_charges;
  regulatory_reporting = or_else own.regulatory_reporting head.regulatory_reporting;
}

unfoldable pub transaction_of :
    List Field → ℕ × ℕ → Option Bytes × Option ℤ → Option Bytes × Option ℤ → Transaction
transaction_of fields span instructed collected = record {
  tx_ref = text (find_in fields span (codes "21"));
  instruction_codes = joined (all_in fields span (codes "23E"));
  mandate_reference = text (find_in fields span (codes "21C"));
  direct_debit_reference = text (find_in fields span (codes "21D"));
  currency = collected.0;
  amount = collected.1;
  instructed_currency = instructed.0;
  instructed_amount = instructed.1;
  exchange_rate = text (find_in fields span (codes "36"));
  debtor_bank = party_in fields span (codes "57");
  debtor = party_with_option fields span (codes "59");
  remittance_info = text (find_in fields span (codes "70"));
  senders_charges = text (find_in fields span (codes "71F"));
  receivers_charges = text (find_in fields span (codes "71G"));
}

-- One round of the loop over the spans.
unfoldable pub row_of_span :
    List Field → (Field → Bytes × ℕ) → Template → Effective → ℕ × ℕ → Result MtError Mt104Row
row_of_span fields where_ template head span = do
  instructed ← ccy_amount_in fields span (codes "33B") where_
  collected ← ccy_amount_in fields span (codes "32B") where_
  ok (record {
    template = template;
    effective = effective head (stated fields span);
    transaction = some (transaction_of fields span instructed collected);
  })

unfoldable pub rows_of_spans :
    List Field
    → (Field → Bytes × ℕ)
    → Template
    → Effective
    → List (ℕ × ℕ)
    → Result MtError (List Mt104Row)
rows_of_spans fields where_ template head [] = ok []
rows_of_spans fields where_ template head (span ∷ spans) =
    row_of_span fields where_ template head span >>= λ row.
    rows_of_spans fields where_ template head spans >>= λ rows. ok (row ∷ rows)

-- A message without a transaction is one row of its header.
unfoldable pub rows_or_header :
    List Field
    → (Field → Bytes × ℕ)
    → Template
    → Effective
    → List (ℕ × ℕ)
    → Result MtError (List Mt104Row)
rows_or_header fields where_ template head [] =
    ok (record { template = template; effective = head; transaction = none } ∷ [])
rows_or_header fields where_ template head (span ∷ spans) =
    rows_of_spans fields where_ template head (span ∷ spans)

unfoldable pub rows_from_message :
    Bytes → List Field → Bytes → (Field → Bytes × ℕ) → Result MtError (List Mt104Row)
rows_from_message msg fields source where_ =
    let (spans, settlement) = cut_last fields (sequences fields (codes "21")) in
    let head = head_span fields spans in
    let settle = settlement_span fields settlement in
    do
      total ← ccy_amount_in fields settle (codes "32B") where_
      sum ← sum_in fields settle where_
      rows_or_header fields where_ (template_of msg fields source head settle total sum)
          (stated fields head) spans

-- The stream of an MT104 file.
abbrev pub Mt104Stream : Type 0
Mt104Stream = Stream Mt104Row

-- One round of the loop of `next_row`.
unfoldable pub round : Mt104Stream → Result StreamError (Round Mt104Row Mt104Stream)
round = Queue.round (codes "104") rows_from_message
