-- ===== src/Mt101.antt =====
-- src/mt101.rs: the rows of requests for transfer, one for each transaction.
pub mod Rows
use quackiso.Base.{
  is_some, or_else, ℕ, ◌||◌, List, [], ◌∷◌, Option, none, some, Bytes, codes, if◌then◌else◌, length,
  and_then, Result, ok, ◌>>=◌,
}
use quackiso.Base.Int.{ℤ}
use quackiso.Text.Trim.{trim}
use quackiso.Mt.Error.{MtError}
use quackiso.Mt.Dates.{date2}
use quackiso.Mt.Amount.{index_total}
use quackiso.Mt.Fields.{Field, find_in, all_in, sequences}
use quackiso.Mt.Headers.{direction, message_type, sender_bic, receiver_bic, user_header_field}
use quackiso.Mt.Parties.{
  instructing_party, customer, party_in, party_with_option, ccy_amount_in, joined, text,
}
use quackiso.Mt.Stream.{StreamError, Round}
use quackiso.Mt.Stream.Queue.{Stream}
use quackiso.Mt.Stream.Queue

-- The options of field 50 that name the customer whose account is debited.
abbrev pub ordering : List Bytes
ordering = codes "50F" ∷ codes "50G" ∷ codes "50H" ∷ []

-- The columns that all rows of a message share: what its header states.
pub record Template : Type 0 where
  pub direction : Option Bytes
  pub message_type : Option Bytes
  pub sender_bic : Option Bytes
  pub receiver_bic : Option Bytes
  pub uetr : Option Bytes
  pub validation_flag : Option Bytes
  pub mur : Option Bytes
  pub sender_reference : Option Bytes
  pub customer_reference : Option Bytes
  pub message_index : Option ℤ
  pub message_total : Option ℤ
  pub requested_execution_date : Option ℤ
  pub authorisation : Option Bytes
  pub sending_institution : Option Bytes
  pub source_file : Option Bytes

-- The columns that a header or a transaction can state: the effective values.
pub record Effective : Type 0 where
  pub instructing_party : Option Bytes
  -- option letter, identifier, account
  pub ordering_customer : Option Bytes × Option Bytes × Option Bytes
  -- identifier, account
  pub account_servicing_institution : Option Bytes × Option Bytes

-- The columns of one transaction.
pub record Transaction : Type 0 where
  pub tx_ref : Option Bytes
  pub fx_deal_ref : Option Bytes
  pub instruction_codes : Option Bytes
  pub currency : Option Bytes
  pub amount : Option ℤ
  pub instructed_currency : Option Bytes
  pub instructed_amount : Option ℤ
  pub exchange_rate : Option Bytes
  pub intermediary_institution : Option Bytes
  pub account_with_institution : Option Bytes × Option Bytes
  pub beneficiary : Option Bytes × Option Bytes × Option Bytes
  pub remittance_info : Option Bytes
  pub details_of_charges : Option Bytes
  pub charges_account : Option Bytes
  pub regulatory_reporting : Option Bytes

-- A row of a message without a transaction has none of the columns of one.
pub record Mt101Row : Type 0 where
  pub template : Template
  pub effective : Effective
  pub transaction : Option Transaction

unfoldable pub head_span : List Field → List (ℕ × ℕ) → ℕ × ℕ
head_span fields [] = (0, length fields)
head_span fields ((from, to) ∷ spans) = (0, from)

abbrev pub index_of : Option Field → Option ℤ × Option ℤ
index_of none = (none, none)
index_of (some f) = index_total f.value

unfoldable pub template_of : Bytes → List Field → Bytes → ℕ × ℕ → Template
template_of msg fields source head = record {
  direction = direction msg;
  message_type = message_type msg;
  sender_bic = sender_bic msg;
  receiver_bic = receiver_bic msg;
  uetr = user_header_field msg (codes "121");
  validation_flag = user_header_field msg (codes "119");
  mur = user_header_field msg (codes "108");
  sender_reference = text (find_in fields head (codes "20"));
  customer_reference = text (find_in fields head (codes "21R"));
  message_index = (index_of (find_in fields head (codes "28D"))).0;
  message_total = (index_of (find_in fields head (codes "28D"))).1;
  requested_execution_date =
      and_then (find_in fields head (codes "30")) (λ f. date2 (trim f.value));
  authorisation = text (find_in fields head (codes "25"));
  sending_institution = (party_in fields head (codes "51A")).0;
  source_file = some source;
}

-- What the fields of a span state.
unfoldable pub stated : List Field → ℕ × ℕ → Effective
stated fields span = record {
  instructing_party = instructing_party fields span;
  ordering_customer = customer fields span ordering;
  account_servicing_institution = party_in fields span (codes "52");
}

-- The transaction's party, or the header's if it names neither an identifier nor an account.
abbrev pub customer_or :
    Option Bytes × Option Bytes × Option Bytes
    → Option Bytes × Option Bytes × Option Bytes
    → Option Bytes × Option Bytes × Option Bytes
customer_or (option, name, account) head =
    if is_some name || is_some account then (option, name, account) else head

abbrev pub institution_or :
    Option Bytes × Option Bytes → Option Bytes × Option Bytes → Option Bytes × Option Bytes
institution_or (none, none) head = head
institution_or (none, some a) head = (none, some a)
institution_or (some i, a) head = (some i, a)

unfoldable pub effective : Effective → Effective → Effective
effective head own = record {
  instructing_party = or_else own.instructing_party head.instructing_party;
  ordering_customer = customer_or own.ordering_customer head.ordering_customer;
  account_servicing_institution =
      institution_or own.account_servicing_institution head.account_servicing_institution;
}

unfoldable pub transaction_of :
    List Field → ℕ × ℕ → Option Bytes × Option ℤ → Option Bytes × Option ℤ → Transaction
transaction_of fields span instructed settled = record {
  tx_ref = text (find_in fields span (codes "21"));
  fx_deal_ref = text (find_in fields span (codes "21F"));
  instruction_codes = joined (all_in fields span (codes "23E"));
  currency = settled.0;
  amount = settled.1;
  instructed_currency = instructed.0;
  instructed_amount = instructed.1;
  exchange_rate = text (find_in fields span (codes "36"));
  intermediary_institution = (party_in fields span (codes "56")).0;
  account_with_institution = party_in fields span (codes "57");
  beneficiary = party_with_option fields span (codes "59");
  remittance_info = text (find_in fields span (codes "70"));
  details_of_charges = text (find_in fields span (codes "71A"));
  charges_account = text (find_in fields span (codes "25A"));
  regulatory_reporting = text (find_in fields span (codes "77B"));
}

-- One round of the loop over the spans.
unfoldable pub row_of_span :
    List Field → (Field → Bytes × ℕ) → Template → Effective → ℕ × ℕ → Result MtError Mt101Row
row_of_span fields where_ template head span = do
  instructed ← ccy_amount_in fields span (codes "33B") where_
  settled ← ccy_amount_in fields span (codes "32B") where_
  ok (record {
    template = template;
    effective = effective head (stated fields span);
    transaction = some (transaction_of fields span instructed settled);
  })

unfoldable pub rows_of_spans :
    List Field
    → (Field → Bytes × ℕ)
    → Template
    → Effective
    → List (ℕ × ℕ)
    → Result MtError (List Mt101Row)
rows_of_spans fields where_ template head [] = ok []
rows_of_spans fields where_ template head (span ∷ spans) =
    row_of_span fields where_ template head span >>= λ row.
    rows_of_spans fields where_ template head spans >>= λ rows. ok (row ∷ rows)

-- A message without a transaction is one row of its header.
unfoldable pub rows_or_header :
    List Field
    → (Field → Bytes × ℕ)
    → Template
    → Effective
    → List (ℕ × ℕ)
    → Result MtError (List Mt101Row)
rows_or_header fields where_ template head [] =
    ok (record { template = template; effective = head; transaction = none } ∷ [])
rows_or_header fields where_ template head (span ∷ spans) =
    rows_of_spans fields where_ template head (span ∷ spans)

unfoldable pub rows_from_message :
    Bytes → List Field → Bytes → (Field → Bytes × ℕ) → Result MtError (List Mt101Row)
rows_from_message msg fields source where_ =
    let spans = sequences fields (codes "21") in
    let head = head_span fields spans in
    rows_or_header fields where_ (template_of msg fields source head) (stated fields head) spans

-- The stream of an MT101 file.
abbrev pub Mt101Stream : Type 0
Mt101Stream = Stream Mt101Row

-- One round of the loop of `next_row`.
unfoldable pub round : Mt101Stream → Result StreamError (Round Mt101Row Mt101Stream)
round = Queue.round (codes "101") rows_from_message
