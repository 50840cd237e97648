-- ===== src/Mt202.antt =====
-- src/mt202.rs: the rows of transfers between institutions, one for each message.
pub mod Sequences
use quackiso.Base.{
  ℕ, List, [], ◌∷◌, Option, none, some, Bytes, codes, if◌then◌else◌, length, and_then, Result, ok,
  ◌>>=◌, map_err,
}
use quackiso.Base.Int.{ℤ}
use quackiso.Text.{str_eq}
use quackiso.Mt.Error.{MtError, located}
use quackiso.Mt.Amount
use quackiso.Mt.StatementLine.{some_text}
use quackiso.Mt.Fields.{Field, find_in, all_in, position}
use quackiso.Mt.Headers.{direction, message_type, sender_bic, receiver_bic, user_header_field}
use quackiso.Mt.Parties
use quackiso.Mt.Stream.{StreamError, Round}
use quackiso.Mt.Stream.Single.{Stream}
use quackiso.Mt.Stream.Single

pub record Mt202Row : Type 0 where
  pub direction : Option Bytes
  pub message_type : Option Bytes
  pub sender_bic : Option Bytes
  pub receiver_bic : Option Bytes
  pub uetr : Option Bytes
  pub validation_flag : Option Bytes
  pub mur : Option Bytes
  pub variant : Option Bytes
  pub tx_ref : Option Bytes
  pub related_ref : Option Bytes
  pub time_indications : Option Bytes
  pub value_date : Option ℤ
  pub currency : Option Bytes
  pub amount : Option ℤ
  -- identifier, account
  pub ordering_institution : Option Bytes × Option Bytes
  pub senders_correspondent : Option Bytes × Option Bytes
  pub receivers_correspondent : Option Bytes
  pub intermediary_institution : Option Bytes
  pub account_with_institution : Option Bytes × Option Bytes
  pub beneficiary_institution : Option Bytes × Option Bytes
  pub sender_to_receiver_info : Option Bytes
  pub cov_ordering_customer : Option Bytes × Option Bytes
  pub cov_ordering_institution : Option Bytes
  pub cov_intermediary_institution : Option Bytes
  pub cov_account_with_institution : Option Bytes
  pub cov_beneficiary : Option Bytes × Option Bytes
  pub cov_remittance_info : Option Bytes
  pub cov_sender_to_receiver_info : Option Bytes
  pub cov_instructed_currency : Option Bytes
  pub cov_instructed_amount : Option ℤ
  pub source_file : Option Bytes

-- The value trimmed, if anything is left of it.
unfoldable pub text : Option Bytes → Option Bytes
text value = and_then value some_text

unfoldable pub text_in : List Field → ℕ × ℕ → Bytes → Option Bytes
text_in fields range key = and_then (find_in fields range key) λ f. text (some f.value)

unfoldable pub join_in : List Field → ℕ × ℕ → Bytes → Option Bytes
join_in fields range key = Parties.joined (all_in fields range key)

unfoldable pub date_ccy_amount_in :
    List Field → ℕ × ℕ → (Field → Bytes × ℕ) → Result MtError (Option ℤ × Option Bytes × Option ℤ)
date_ccy_amount_in fields range where_ = elim (find_in fields range (codes "32A")) [
  | none ↦ ok (none, none, none)
  | some f ↦ map_err (located (where_ f)) (Amount.date_ccy_amount f.value) >>= λ r.
      ok (r.0, some r.1, some r.2)
]

unfoldable pub ccy_amount_in :
    List Field → ℕ × ℕ → Bytes → (Field → Bytes × ℕ) → Result MtError (Option Bytes × Option ℤ)
ccy_amount_in fields range key where_ = elim (find_in fields range key) [
  | none ↦ ok (none, none)
  | some f ↦ map_err (located (where_ f)) (Amount.ccy_amount f.tag f.value) >>= λ r.
      ok (some r.0, some r.1)
]

unfoldable pub party_id_account : List Field → ℕ × ℕ → Bytes → Option Bytes × Option Bytes
party_id_account fields range key = elim (find_in fields range key) [
  | none ↦ (none, none)
  | some f ↦ ((Parties.party f.tag f.value).0, (Parties.party f.tag f.value).1)
]

unfoldable pub party_id : List Field → ℕ × ℕ → Bytes → Option Bytes
party_id fields range key = (party_id_account fields range key).0

-- Where sequence B begins: the first field 50, or the end.
unfoldable pub b_start : List Field → ℕ
b_start fields = elim (position fields (codes "50" ∷ [])) [ none ↦ length fields | some n ↦ n ]

abbrev pub cov : Option Bytes → Option Bytes
cov none = none
cov (some flag) = if str_eq flag (codes "COV") then some (codes "COV") else none

-- The row, from the fields with an amount, which can be refused; `a` and `b` are the two sequences.
unfoldable pub row_of :
    Bytes
    → List Field
    → Bytes
    → ℕ × ℕ
    → ℕ × ℕ
    → Option ℤ × Option Bytes × Option ℤ
    → Option Bytes × Option ℤ
    → Mt202Row
row_of msg fields source a b settled instructed = record {
  direction = direction msg;
  message_type = message_type msg;
  sender_bic = sender_bic msg;
  receiver_bic = receiver_bic msg;
  uetr = text (user_header_field msg (codes "121"));
  validation_flag = text (user_header_field msg (codes "119"));
  mur = text (user_header_field msg (codes "108"));
  variant = cov (text (user_header_field msg (codes "119")));
  tx_ref = text_in fields a (codes "20");
  related_ref = text_in fields a (codes "21");
  time_indications = join_in fields a (codes "13C");
  value_date = settled.0;
  currency = settled.1;
  amount = settled.2;
  ordering_institution = party_id_account fields a (codes "52");
  senders_correspondent = party_id_account fields a (codes "53");
  receivers_correspondent = party_id fields a (codes "54");
  intermediary_institution = party_id fields a (codes "56");
  account_with_institution = party_id_account fields a (codes "57");
  beneficiary_institution = party_id_account fields a (codes "58");
  sender_to_receiver_info = text_in fields a (codes "72");
  cov_ordering_customer = party_id_account fields b (codes "50");
  cov_ordering_institution = party_id fields b (codes "52");
  cov_intermediary_institution = party_id fields b (codes "56");
  cov_account_with_institution = party_id fields b (codes "57");
  cov_beneficiary = party_id_account fields b (codes "59");
  cov_remittance_info = text_in fields b (codes "70");
  cov_sender_to_receiver_info = text_in fields b (codes "72");
  cov_instructed_currency = instructed.0;
  cov_instructed_amount = instructed.1;
  source_file = some source;
}

unfoldable pub row_from_message :
    Bytes → List Field → Bytes → (Field → Bytes × ℕ) → Result MtError Mt202Row
row_from_message msg fields source where_ = do
  let a : ℕ × ℕ = (0, b_start fields)
  let b : ℕ × ℕ = (b_start fields, length fields)
  settled ← date_ccy_amount_in fields a where_
  instructed ← ccy_amount_in fields b (codes "33B") where_
  ok (row_of msg fields source a b settled instructed)

-- The stream of an MT202 file.
abbrev pub Mt202Stream : Type 0
Mt202Stream = Stream

-- One round of the loop of `next_row`.
unfoldable pub round : Mt202Stream → Result StreamError (Round Mt202Row Mt202Stream)
round = Single.round (codes "202") row_from_message
