-- ===== src/Mt103/Amounts.antt =====
-- The amounts of a row, and the fields that they come from.
use quackiso.Base.{
  is_some, ℕ, ◌≡◌, sym, ap, Option, none, some, Bytes, codes, List, Result, ok, err, map_err,
  >>=-eq-ok,
}
use quackiso.Base.Int.{ℤ}
use quackiso.Mt.Error.{MtError, located}
use quackiso.Mt.Amount
use quackiso.Mt.Fields.{Field, find, find_last}
use quackiso.Mt103.{Mt103Row, date_of, date_ccy_amount, ccy_amount, row_of, row_from_message}

abbrev amount_or {ℓ} : {A : Type ℓ} → A → Result MtError A → A
amount_or other (ok a) = a
amount_or other (err e) = other

ccy_amount-is_some :
    (f : Option Field) (tag : Bytes) (where_ : Field → Bytes × ℕ) (r : Option Bytes × Option ℤ)
    → ccy_amount f tag where_ ≡ ok r
    → is_some r.1 ≡ is_some f
unfolding ccy_amount
ccy_amount-is_some none tag where_ r h =
    sym (ap (λ (q : Option Bytes × Option ℤ). is_some q.1) (ap (amount_or r) h))
ccy_amount-is_some (some f) tag where_ r h =
    let (found, _, e) =
      >>=-eq-ok (map_err (located (where_ f)) (Amount.ccy_amount tag f.value)) _ h in
    sym (ap (λ (q : Option Bytes × Option ℤ). is_some q.1) (ap (amount_or r) e))

date_of-is_some :
    (f : Option Field) (where_ : Field → Bytes × ℕ) (r : Option ℤ × Option Bytes × Option ℤ)
    → date_of where_ f ≡ ok r
    → is_some r.2 ≡ is_some f
unfolding date_of
date_of-is_some none where_ r h =
    sym (ap (λ (q : Option ℤ × Option Bytes × Option ℤ). is_some q.2) (ap (amount_or r) h))
date_of-is_some (some f) where_ r h =
    let (found, _, e) =
      >>=-eq-ok (map_err (located (where_ f)) (Amount.date_ccy_amount f.value)) _ h in
    sym (ap (λ (q : Option ℤ × Option Bytes × Option ℤ). is_some q.2) (ap (amount_or r) e))

-- A row has each of its four amounts exactly if the message has the field: the amount of `:32A:`, the
-- instructed amount of `:33B:`, the sender's charges of the last `:71F:`, and the receiver's charges of
-- `:71G:`. No field that is there is dropped for a malformed amount: then there is no row.
pub row_from_message-is_some :
    (msg : Bytes) (fields : List Field) (source : Bytes) (where_ : Field → Bytes × ℕ)
    (row : Mt103Row)
    → row_from_message msg fields source where_ ≡ ok row
    → (is_some row.amount ≡ is_some (find fields (codes "32A")))
      × (is_some row.instructed_amount ≡ is_some (find fields (codes "33B")))
      × (is_some row.sender_charges ≡ is_some (find_last fields (codes "71F")))
      × (is_some row.receiver_charges ≡ is_some (find fields (codes "71G")))
unfolding row_from_message row_of date_ccy_amount
row_from_message-is_some msg fields source where_ row h =
    let (settled, e1, h1) = >>=-eq-ok (date_ccy_amount fields where_) _ h in
    let (instructed, e2, h2) =
      >>=-eq-ok (ccy_amount (find fields (codes "33B")) (codes "33B") where_) _ h1 in
    let (sender, e3, h3) =
      >>=-eq-ok (ccy_amount (find_last fields (codes "71F")) (codes "71F") where_) _ h2 in
    let (receiver, e4, h4) =
      >>=-eq-ok (ccy_amount (find fields (codes "71G")) (codes "71G") where_) _ h3 in
    let same : row_of msg fields source settled instructed sender receiver ≡ row =
      ap (amount_or row) h4 in
    rw (← same) (
      date_of-is_some (find fields (codes "32A")) where_ settled e1,
      ccy_amount-is_some (find fields (codes "33B")) (codes "33B") where_ instructed e2,
      ccy_amount-is_some (find_last fields (codes "71F")) (codes "71F") where_ sender e3,
      ccy_amount-is_some (find fields (codes "71G")) (codes "71G") where_ receiver e4,
    )
