-- ===== src/Mt942/Context.antt =====
-- The columns of src/mt942.rs that all rows of a report share: `ctx_from_message`.
use quackiso.Base.{
  ℕ, Bool, not, ◌||◌, List, [], ◌∷◌, Option, none, some, Bytes, codes, ltb, ◌==◌, if◌then◌else◌,
  length, take, drop, get_elem?, Result, ok, err, ◌>>=◌, map_err, and_then,
}
use quackiso.Base.Int.{ℤ}
use quackiso.Text.{is_alpha, is_ascii, is_empty, all, split_on, str_eq}
use quackiso.Text.Trim.{trim}
use quackiso.Mt.Error.{
  MtError, located, tagged, amount_error, not_a_floor_limit, not_a_currency, not_an_amount,
}
use quackiso.Mt.Dates.{datetime13d}
use quackiso.Mt.Amount.{amount, count_ccy_amount, statement_number}
use quackiso.Mt.StatementLine.{some_text}
use quackiso.Mt.Fields.{Field, find, value}
use quackiso.Mt.Headers.{direction, message_type, sender_bic, receiver_bic, user_header_field}
use quackiso.Mt.Parties.{account_field, kept_lines, first_of, join_lines}

-- The amounts and currencies of both sides.
abbrev pub FloorLimits : Type 0
FloorLimits = Option ℤ × Option Bytes × Option ℤ × Option Bytes

-- A count, a currency, and an amount.
abbrev pub Total : Type 0
Total = Option ℤ × Option Bytes × Option ℤ

pub record Mt942Ctx : Type 0 where
  pub direction : Option Bytes
  pub message_type : Option Bytes
  pub sender_bic : Option Bytes
  pub receiver_bic : Option Bytes
  pub uetr : Option Bytes
  pub validation_flag : Option Bytes
  pub mur : Option Bytes
  pub tx_ref : Option Bytes
  pub related_ref : Option Bytes
  pub account : Option Bytes
  pub account_bic : Option Bytes
  pub statement_number : Option ℤ
  pub sequence_number : Option ℤ
  pub floor_limits : FloorLimits
  pub report_datetime : Option ℤ
  pub report_utc_offset : Option Bytes
  pub statement_narrative : Option Bytes
  pub debit_entries : Total
  pub credit_entries : Total

unfoldable pub account : Bytes → Bytes → Option Bytes × Option Bytes
account tag v =
    let lines = kept_lines (split_on b'\n' v) in
    if str_eq tag (codes "25P")
    then (and_then (first_of lines) some_text, and_then (get_elem? lines 1) some_text)
    else (some_text (account_field v), none)

-- The mark and the amount behind the currency.
abbrev pub is_mark : ℕ → Bool
is_mark c = c == b'D' || c == b'C'

unfoldable pub split_mark : Bytes → Option Bytes × Bytes
split_mark [] = (none, [])
split_mark (c ∷ s) = if is_mark c then (some (c ∷ []), s) else (none, c ∷ s)

-- The currency, the mark, and the amount.
unfoldable pub floor_limit : Bytes → Result MtError (Bytes × Option Bytes × ℤ)
floor_limit v =
    let s = trim v in
    let (mark, amount_text) = split_mark (drop 3 s) in
    if not (is_ascii s) || ltb (length s) 4
    then err (tagged (codes "34F") (not_a_floor_limit v))
    else if not (all is_alpha (take 3 s))
    then err (tagged (codes "34F") (not_a_currency (take 3 s)))
    else if is_empty amount_text
    then err (tagged (codes "34F") (not_an_amount v))
    else map_err (λ e. tagged (codes "34F") (amount_error e)) (amount amount_text) >>= λ n.
        ok (take 3 s, mark, n)

-- The fields with exactly the tag.
unfoldable pub exact : List Field → Bytes → List Field
exact [] tag = []
exact (f ∷ fs) tag = let rest = exact fs tag in if str_eq f.tag tag then f ∷ rest else rest

-- One limit alone: of the side that it names, or of both.
unfoldable pub one_limit : Bytes × Option Bytes × ℤ → FloorLimits
one_limit (currency, none, n) = (some n, some currency, some n, some currency)
one_limit (currency, some mark, n) =
    if str_eq mark (codes "D")
    then (some n, some currency, none, none)
    else if str_eq mark (codes "C")
    then (none, none, some n, some currency)
    else (some n, some currency, some n, some currency)

-- The `:34F:` fields; those behind the second are not read.
unfoldable pub limits_of : (Field → Bytes × ℕ) → List Field → Result MtError FloorLimits
limits_of where_ [] = ok (none, none, none, none)
limits_of where_ (first ∷ []) =
    map_err (located (where_ first)) (floor_limit first.value) >>= λ a. ok (one_limit a)
limits_of where_ (first ∷ second ∷ more) =
    map_err (located (where_ first)) (floor_limit first.value) >>= λ a.
    map_err (located (where_ second)) (floor_limit second.value) >>= λ b.
    ok (some a.2, some a.0, some b.2, some b.0)

unfoldable pub floor_limits : List Field → (Field → Bytes × ℕ) → Result MtError FloorLimits
floor_limits fields where_ = limits_of where_ (exact fields (codes "34F"))

unfoldable pub report_time :
    List Field → (Field → Bytes × ℕ) → Result MtError (Option ℤ × Option Bytes)
report_time fields where_ = elim (find fields (codes "13D")) [
  | none ↦ ok (none, none)
  | some f ↦
      map_err (λ e. located (where_ f) (tagged (codes "13D") e)) (datetime13d f.value) >>= λ r.
      ok (r.0, some r.1)
]

unfoldable pub total : Bytes → List Field → (Field → Bytes × ℕ) → Result MtError Total
total tag fields where_ = elim (find fields tag) [
  | none ↦ ok (none, none, none)
  | some f ↦ map_err (λ e. located (where_ f) (tagged tag e)) (count_ccy_amount f.value) >>= λ r.
      ok (r.0, some r.1, some r.2)
]

-- The fields behind the last `:90D:` or `:90C:`, if there is one.
unfoldable pub behind_totals : List Field → Option (List Field)
behind_totals [] = none
behind_totals (f ∷ fs) = elim (behind_totals fs) [
  | some rest ↦ some rest
  | none ↦ if str_eq f.tag (codes "90D") || str_eq f.tag (codes "90C") then some fs else none
]

abbrev pub joined_or_none : List Bytes → Option Bytes
joined_or_none [] = none
joined_or_none (v ∷ vs) = some (join_lines (v ∷ vs))

-- The values that are not blank, trimmed, one to a line.
unfoldable pub join_values : List Bytes → Option Bytes
join_values vs = joined_or_none (kept_lines vs)

abbrev pub values_of : List Field → List Bytes
values_of [] = []
values_of (f ∷ fs) = f.value ∷ values_of fs

unfoldable pub statement_narrative : List Field → Option Bytes
statement_narrative fields =
    and_then (behind_totals fields) λ rest. join_values (values_of (exact rest (codes "86")))

unfoldable pub account_of : List Field → Option Bytes × Option Bytes
account_of fields = elim (find fields (codes "25")) [
  | none ↦ (none, none)
  | some f ↦ account f.tag f.value
]

unfoldable pub numbers_of : List Field → Option ℤ × Option ℤ
numbers_of fields = elim (value fields (codes "28")) [
  | none ↦ (none, none)
  | some v ↦ statement_number v
]

unfoldable pub ctx_from_message : Bytes → List Field → (Field → Bytes × ℕ) → Result MtError Mt942Ctx
ctx_from_message msg fields where_ = do
  limits ← floor_limits fields where_
  time ← report_time fields where_
  debit ← total (codes "90D") fields where_
  credit ← total (codes "90C") fields where_
  ok (record {
    direction = direction msg;
    message_type = message_type msg;
    sender_bic = sender_bic msg;
    receiver_bic = receiver_bic msg;
    uetr = user_header_field msg (codes "121");
    validation_flag = user_header_field msg (codes "119");
    mur = user_header_field msg (codes "108");
    tx_ref = value fields (codes "20");
    related_ref = value fields (codes "21");
    account = (account_of fields).0;
    account_bic = (account_of fields).1;
    statement_number = (numbers_of fields).0;
    sequence_number = (numbers_of fields).1;
    floor_limits = limits;
    report_datetime = time.0;
    report_utc_offset = time.1;
    statement_narrative = statement_narrative fields;
    debit_entries = debit;
    credit_entries = credit;
  })
