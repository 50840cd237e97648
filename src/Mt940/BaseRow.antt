-- ===== src/Mt940/BaseRow.antt =====
-- The rows of `Mt940Row`, and the columns that all rows of a statement share: `base_row`.
use quackiso.Base.{
  ℕ, Bool, not, List, [], ◌∷◌, ◌++◌, Option, none, some, Bytes, codes, ◌==◌, if◌then◌else◌, length,
  and_then, Result, ok, ◌>>=◌, map_err,
}
use quackiso.Base.Int.{ℤ}
use quackiso.Text.{starts_with, str_eq}
use quackiso.Text.Trim.{trim_start}
use quackiso.Mt.Error.{located}
use quackiso.Mt.Amount.{Balance, balance, statement_number}
use quackiso.Mt.StatementLine.{StatementLine, some_text}
use quackiso.Mt.Fields.{Field, find, value}
use quackiso.Mt.Blocks.{at}
use quackiso.Mt.Headers.{
  direction, message_type, sender_bic, receiver_bic, user_header_field, get_str,
}
use quackiso.Mt.Parties.{account_field}
use quackiso.Mt.Stream.{StreamError, field_error}

-- A balance as its columns: the mark, the date, the currency, and the amount.
pub record BalanceColumns : Type 0 where
  pub dc : Option Bytes
  pub date : Option ℤ
  pub currency : Option Bytes
  pub amount : Option ℤ

-- What all rows of a statement share.
pub record Carried : Type 0 where
  pub direction : Option Bytes
  pub message_type : Option Bytes
  pub sender_bic : Option Bytes
  pub receiver_bic : Option Bytes
  pub uetr : Option Bytes
  pub validation_flag : Option Bytes
  pub mur : Option Bytes
  pub tx_ref : Option Bytes
  pub related_ref : Option Bytes
  pub account : Option Bytes
  pub account_bic : Option Bytes
  pub statement_number : Option ℤ
  pub sequence_number : Option ℤ
  pub opening_balance_kind : Option Bytes
  pub opening_balance : BalanceColumns
  pub closing_balance_kind : Option Bytes
  pub closing_balance : BalanceColumns
  pub available_balance : BalanceColumns
  pub forward_available : BalanceColumns
  pub statement_narrative : Option Bytes
  pub source_file : Option Bytes

-- The columns of one entry, with its number in the statement and the narrative under it.
pub record Entry : Type 0 where
  pub entry_index : ℕ
  pub line : StatementLine
  pub narrative : Option Bytes

pub record Mt940Row : Type 0 where
  pub carried : Carried
  pub entry : Option Entry

-- The value of a field that may repeat, on a line of its own behind those before it.
unfoldable pub append_joined : Option Bytes → Bytes → Option Bytes
append_joined slot v = elim (some_text v) [
  | none ↦ slot
  | some s ↦ elim slot [ none ↦ some s | some existing ↦ some (existing ++ b'\n' ∷ s) ]
]

unfoldable pub append_all : Option Bytes → List Bytes → Option Bytes
append_all slot [] = slot
append_all slot (v ∷ vs) = append_all (append_joined slot v) vs

-- The fields behind the first whose tag begins with 62, if there is one.
unfoldable pub behind_closing : List Field → Option (List Field)
behind_closing [] = none
behind_closing (f ∷ fs) =
    let rest = behind_closing fs in if starts_with (codes "62") f.tag then some fs else rest

unfoldable pub exact_values : Bytes → List Field → List Bytes
exact_values tag [] = []
exact_values tag (f ∷ fs) =
    let rest = exact_values tag fs in if str_eq f.tag tag then f.value ∷ rest else rest

unfoldable pub statement_narrative : List Field → Option Bytes
statement_narrative fields =
    and_then (behind_closing fields) λ rest. append_all none (exact_values (codes "86") rest)

-- `split_whitespace`: a word up to the next white space, and what is behind it
abbrev pub starts_blank : Bytes → Bool
starts_blank s = not (length (trim_start s) == length s)

unfoldable pub word : Bytes → Bytes × Bytes
word [] = ([], [])
word (c ∷ s) = let (w, rest) = word s in if starts_blank (c ∷ s) then ([], c ∷ s) else (c ∷ w, rest)

unfoldable pub account : Bytes → Bytes → Option Bytes × Option Bytes
account tag v =
    if not (str_eq tag (codes "25P"))
    then (some_text (account_field v), none)
    else let (first, rest) = word (trim_start v) in
      (some_text first, some_text (word (trim_start rest)).0)

-- `path:line` of a field
abbrev pub place : Bytes → ℕ → ℕ → Field → Bytes × ℕ
place source message_line body_line f = (source, at message_line body_line f.line)

unfoldable pub parse_balance : (Field → Bytes × ℕ) → Field → Result StreamError Balance
parse_balance where_ f = map_err (λ e. field_error (located (where_ f) e)) (balance f.tag f.value)

-- The option letter of the tag.
unfoldable pub kind : Bytes → Option Bytes
kind tag = get_str 2 3 tag

abbrev pub no_balance : BalanceColumns
no_balance = record { dc = none; date = none; currency = none; amount = none }

abbrev pub columns : Balance → BalanceColumns
columns b = record {
  dc = some b.dc;
  date = b.date;
  currency = some b.currency;
  amount = some b.amount;
}

-- The first balance with the number, with the letter of its tag.
unfoldable pub balance_of :
    List Field → (Field → Bytes × ℕ) → Bytes → Result StreamError (Option Bytes × BalanceColumns)
balance_of fields where_ key = elim (find fields key) [
  | none ↦ ok (none, no_balance)
  | some f ↦ parse_balance where_ f >>= λ b. ok (kind f.tag, columns b)
]

unfoldable pub account_of : List Field → Option Bytes × Option Bytes
account_of fields = elim (find fields (codes "25")) [
  | none ↦ (none, none)
  | some f ↦ account f.tag f.value
]

unfoldable pub numbers_of : List Field → Option ℤ × Option ℤ
numbers_of fields = elim (value fields (codes "28")) [
  | none ↦ (none, none)
  | some v ↦ statement_number v
]

unfoldable pub base_row :
    Bytes → List Field → Bytes → (Field → Bytes × ℕ) → Result StreamError Carried
base_row msg fields source where_ = do
  opening ← balance_of fields where_ (codes "60")
  closing ← balance_of fields where_ (codes "62")
  available ← balance_of fields where_ (codes "64")
  forward ← balance_of fields where_ (codes "65")
  ok (record {
    direction = direction msg;
    message_type = message_type msg;
    sender_bic = sender_bic msg;
    receiver_bic = receiver_bic msg;
    uetr = user_header_field msg (codes "121");
    validation_flag = user_header_field msg (codes "119");
    mur = user_header_field msg (codes "108");
    tx_ref = and_then (value fields (codes "20")) some_text;
    related_ref = and_then (value fields (codes "21")) some_text;
    account = (account_of fields).0;
    account_bic = (account_of fields).1;
    statement_number = (numbers_of fields).0;
    sequence_number = (numbers_of fields).1;
    opening_balance_kind = opening.0;
    opening_balance = opening.1;
    closing_balance_kind = closing.0;
    closing_balance = closing.1;
    available_balance = available.1;
    forward_available = forward.1;
    statement_narrative = statement_narrative fields;
    source_file = some source;
  })
