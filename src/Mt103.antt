-- ===== src/Mt103.antt =====
-- src/mt103.rs: the rows of customer credit transfers, one for each message.
pub mod Amounts
use quackiso.Base.{ℕ, List, [], ◌∷◌, Option, none, some, Bytes, codes, Result, ok, ◌>>=◌, map_err}
use quackiso.Base.Int.{ℤ}
use quackiso.Mt.Error.{MtError, located}
use quackiso.Mt.Amount
use quackiso.Mt.Fields.{Field, find, find_last, value, all}
use quackiso.Mt.Headers.{direction, message_type, sender_bic, receiver_bic, user_header_field}
use quackiso.Mt.Parties.{joined, with_option}
use quackiso.Mt.Parties
use quackiso.Mt.Stream.{StreamError, Round, NextRow}
use quackiso.Mt.Stream.Single.{Stream}
use quackiso.Mt.Stream.Single

pub record Mt103Row : Type 0 where
  pub direction : Option Bytes
  pub message_type : Option Bytes
  pub sender_bic : Option Bytes
  pub receiver_bic : Option Bytes
  pub uetr : Option Bytes
  pub validation_flag : Option Bytes
  pub mur : Option Bytes
  pub tx_ref : Option Bytes
  pub time_indications : Option Bytes
  pub bank_operation_code : Option Bytes
  pub instruction_codes : Option Bytes
  pub transaction_type_code : Option Bytes
  pub value_date : Option ℤ
  pub currency : Option Bytes
  pub amount : Option ℤ
  pub instructed_currency : Option Bytes
  pub instructed_amount : Option ℤ
  pub exchange_rate : Option Bytes
  -- option letter, identifier, account
  pub ordering_customer : Option Bytes × Option Bytes × Option Bytes
  pub sending_institution : Option Bytes
  -- identifier, account
  pub ordering_institution : Option Bytes × Option Bytes
  pub senders_correspondent : Option Bytes × Option Bytes
  pub receivers_correspondent : Option Bytes
  pub third_reimbursement_institution : Option Bytes
  pub intermediary_institution : Option Bytes
  pub account_with_institution : Option Bytes × Option Bytes
  pub beneficiary : Option Bytes × Option Bytes × Option Bytes
  pub remittance_info : Option Bytes
  pub details_of_charges : Option Bytes
  pub sender_charges : Option ℤ
  pub sender_charges_currency : Option Bytes
  pub receiver_charges : Option ℤ
  pub receiver_charges_currency : Option Bytes
  pub sender_to_receiver_info : Option Bytes
  pub regulatory_reporting : Option Bytes
  pub source_file : Option Bytes

unfoldable pub date_of :
    (Field → Bytes × ℕ) → Option Field → Result MtError (Option ℤ × Option Bytes × Option ℤ)
date_of where_ none = ok (none, none, none)
date_of where_ (some f) = map_err (located (where_ f)) (Amount.date_ccy_amount f.value) >>= λ r.
    ok (r.0, some r.1, some r.2)

unfoldable pub date_ccy_amount :
    List Field → (Field → Bytes × ℕ) → Result MtError (Option ℤ × Option Bytes × Option ℤ)
date_ccy_amount fields where_ = date_of where_ (find fields (codes "32A"))

unfoldable pub ccy_amount :
    Option Field → Bytes → (Field → Bytes × ℕ) → Result MtError (Option Bytes × Option ℤ)
ccy_amount none tag where_ = ok (none, none)
ccy_amount (some f) tag where_ =
    map_err (located (where_ f)) (Amount.ccy_amount tag f.value) >>= λ r. ok (some r.0, some r.1)

unfoldable pub party_with_option : List Field → Bytes → Option Bytes × Option Bytes × Option Bytes
party_with_option fields key = with_option (find fields key)

unfoldable pub party : List Field → Bytes → Option Bytes × Option Bytes
party fields key = elim (find fields key) [
  | none ↦ (none, none)
  | some f ↦ ((Parties.party f.tag f.value).0, (Parties.party f.tag f.value).1)
]

-- The row, from the four fields with an amount, which are read first.
unfoldable pub row_of :
    Bytes
    → List Field
    → Bytes
    → Option ℤ × Option Bytes × Option ℤ
    → Option Bytes × Option ℤ
    → Option Bytes × Option ℤ
    → Option Bytes × Option ℤ
    → Mt103Row
row_of msg fields source settled instructed sender receiver = record {
  direction = direction msg;
  message_type = message_type msg;
  sender_bic = sender_bic msg;
  receiver_bic = receiver_bic msg;
  uetr = user_header_field msg (codes "121");
  validation_flag = user_header_field msg (codes "119");
  mur = user_header_field msg (codes "108");
  tx_ref = value fields (codes "20");
  time_indications = joined (all fields (codes "13C"));
  bank_operation_code = value fields (codes "23B");
  instruction_codes = joined (all fields (codes "23E"));
  transaction_type_code = value fields (codes "26T");
  value_date = settled.0;
  currency = settled.1;
  amount = settled.2;
  instructed_currency = instructed.0;
  instructed_amount = instructed.1;
  exchange_rate = value fields (codes "36");
  ordering_customer = party_with_option fields (codes "50");
  sending_institution = (party fields (codes "51A")).0;
  ordering_institution = party fields (codes "52");
  senders_correspondent = party fields (codes "53");
  receivers_correspondent = (party fields (codes "54")).0;
  third_reimbursement_institution = (party fields (codes "55")).0;
  intermediary_institution = (party fields (codes "56")).0;
  account_with_institution = party fields (codes "57");
  beneficiary = party_with_option fields (codes "59");
  remittance_info = value fields (codes "70");
  details_of_charges = value fields (codes "71A");
  sender_charges = sender.1;
  sender_charges_currency = sender.0;
  receiver_charges = receiver.1;
  receiver_charges_currency = receiver.0;
  sender_to_receiver_info = value fields (codes "72");
  regulatory_reporting = value fields (codes "77B");
  source_file = some source;
}

unfoldable pub row_from_message :
    Bytes → List Field → Bytes → (Field → Bytes × ℕ) → Result MtError Mt103Row
row_from_message msg fields source where_ = do
  settled ← date_ccy_amount fields where_
  instructed ← ccy_amount (find fields (codes "33B")) (codes "33B") where_
  sender ← ccy_amount (find_last fields (codes "71F")) (codes "71F") where_
  receiver ← ccy_amount (find fields (codes "71G")) (codes "71G") where_
  ok (row_of msg fields source settled instructed sender receiver)

-- The stream of an MT103 file.
abbrev pub Mt103Stream : Type 0
Mt103Stream = Stream

-- One round of the loop of `next_row`.
unfoldable pub round : Mt103Stream → Result StreamError (Round Mt103Row Mt103Stream)
round = Single.round (codes "103") row_from_message
