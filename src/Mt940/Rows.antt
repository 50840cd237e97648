-- ===== src/Mt940/Rows.antt =====
-- The rows of an open statement.
use quackiso.Base.{
  ℕ, zero, suc, ◌+◌, ◌≡◌, refl, sym, ap, ◌∙◌, List, [], ◌∷◌, Option, none, some, Bytes, codes,
  length, map_err, Result, ok, err, ◌>>=◌, >>=-eq-ok,
}
use quackiso.Temporal.{slice}
use quackiso.Mt.Error.{located}
use quackiso.Mt.StatementLine.{statement_line}
use quackiso.Mt.Blocks.{at}
use quackiso.Mt.Fields.{Field, without_entries, parse, find}
use quackiso.Mt.Entries.{EntrySite, EntryCursor, next_site, collect, sites}
use quackiso.Mt.Entries.Count.{length-sites}
use quackiso.Mt.Stream.{StreamError, field_error, NextRow, returns}
use quackiso.Mt940.BaseRow.{Mt940Row, Carried}
use quackiso.Mt940.{
  row_of_field, emit, Statement, Mt940Stream, row_from_entry, next_entry, entry_key, fresh, round,
}

-- The calls of `next_row` that return a row each, up to one that does not.
pub data Calls : Mt940Stream → List Mt940Row → Mt940Stream → Type 0 where
  stop : (st : Mt940Stream) → Calls st [] st
  call :
      (st st' st'' : Mt940Stream) (row : Mt940Row) (rows : List Mt940Row)
      → NextRow round st (ok (some row, st'))
      → Calls st' rows st''
      → Calls st (row ∷ rows) st''

abbrev pub index_of : Mt940Row → Option ℕ
index_of r = elim r.entry [ none ↦ none | some e ↦ some e.entry_index ]

-- Rows that carry the same statement, with the numbers of its entries from `n` on.
abbrev pub AreRows : Carried → ℕ → List Mt940Row → Type 0
AreRows base n [] = Unit
AreRows base n (r ∷ rs) = (r.carried ≡ base) × (index_of r ≡ some n) × AreRows base (n + 1) rs

abbrev carried_of : Carried → Result StreamError Mt940Row → Carried
carried_of other (ok row) = row.carried
carried_of other (err e) = other

abbrev number_of : Result StreamError Mt940Row → Option ℕ
number_of (ok row) = index_of row
number_of (err e) = none

-- Every row carries the statement and its own number.
row_of_field-carries :
    (base : Carried) (index : ℕ) (where_ : Bytes × ℕ) (fields : List Field) (f : Option Field)
    (row : Mt940Row)
    → row_of_field base index where_ fields f ≡ ok row
    → (row.carried ≡ base) × (index_of row ≡ some index)
unfolding row_of_field
row_of_field-carries base index where_ fields none row h = cc h
row_of_field-carries base index where_ fields (some f) row h =
    let (line, _, e) =
      >>=-eq-ok (map_err (λ e. field_error (located where_ e)) (statement_line f.value)) _ h in
    (sym (ap (carried_of base) e), sym (ap number_of e))

row_from_entry-carries :
    (source : Bytes) (s : Statement) (index : ℕ) (site : EntrySite) (row : Mt940Row)
    → row_from_entry source s index site ≡ ok row
    → (row.carried ≡ s.base) × (index_of row ≡ some index)
unfolding row_from_entry
row_from_entry-carries source s index site row h =
    let fields = parse (slice site.from site.to s.body) in
    row_of_field-carries s.base index (source, at s.message_line s.body_line site.line) fields
      (find fields (codes "61")) row h

abbrev row_or : Mt940Row → Result StreamError (Option (Mt940Row × Statement)) → Mt940Row
row_or other (ok (some (row, s))) = row
row_or other _ = other

abbrev statement_or : Statement → Result StreamError (Option (Mt940Row × Statement)) → Statement
statement_or other (ok (some (row, s))) = s
statement_or other _ = other

-- What an entry that was emitted says of the cursor, and of the statement behind it.
pub record IsEmitted (s s' : Statement) (row : Mt940Row) (found : Option EntrySite × EntryCursor)
    : Type 0 where
  pub site : EntrySite
  pub is_site : found.0 ≡ some site
  pub moved : record s { cursor = found.1; emitted = s.emitted + 1 } ≡ s'
  pub carries : row.carried ≡ s.base
  pub numbered : index_of row ≡ some (s.emitted + 1)

emit-IsEmitted :
    (source : Bytes) (s s' : Statement) (row : Mt940Row) (found : Option EntrySite × EntryCursor)
    → emit source s found ≡ ok (some (row, s'))
    → IsEmitted s s' row found
unfolding emit
emit-IsEmitted source s s' row (none, c) h = cc h
emit-IsEmitted source s s' row (some site, c) h =
    let s1 : Statement = record s { cursor = c; emitted = s.emitted + 1 } in
    let (row', e, e') = >>=-eq-ok (row_from_entry source s1 (s.emitted + 1) site) _ h in
    let same : row' ≡ row = ap (row_or row) e' in
    let carried = row_from_entry-carries source s1 (s.emitted + 1) site row' e in
    record {
      site = site;
      is_site = refl;
      moved = ap (statement_or s) e';
      carries = rw same at carried.0;
      numbered = rw same at carried.1;
    }

emit-none :
    (source : Bytes) (s : Statement) (found : Option EntrySite × EntryCursor)
    → emit source s found ≡ ok none
    → found.0 ≡ none
unfolding emit
emit-none source s (none, c) h = refl
emit-none source s (some site, c) h =
    let s1 : Statement = record s { cursor = c; emitted = s.emitted + 1 } in
    let (row', e, e') = >>=-eq-ok (row_from_entry source s1 (s.emitted + 1) site) _ h in cc e'

-- The rows of the entries that an open statement still has, and the statement behind them.
unfoldable pub drain : ℕ → Bytes → Statement → Result StreamError (List Mt940Row × Statement)
drain zero source s = ok ([], s)
drain (suc fuel) source s = next_entry source s >>= λ r. elim r [
  | none ↦ ok ([], s)
  | some (row, s') ↦ drain fuel source s' >>= λ more. ok (row ∷ more.0, more.1)
]

abbrev pub opened : Mt940Stream → Statement → Mt940Stream
opened st s = record st { open_statement = some s }

-- What the rows are: as many as the cursor finds sites, of this statement, numbered, and what as many
-- calls of `next_row` return.
pub record AreRowsOf (fuel : ℕ) (st : Mt940Stream) (s s'' : Statement) (rows : List Mt940Row)
    : Type 0 where
  pub as_many : length rows ≡ length (collect fuel s.body entry_key s.cursor)
  pub of_statement : AreRows s.base (s.emitted + 1) rows
  pub called : Calls (opened st s) rows (opened st s'')

round-next_entry :
    (st : Mt940Stream) (s s' : Statement) (row : Mt940Row)
    → next_entry st.source s ≡ ok (some (row, s'))
    → NextRow round (opened st s) (ok (some row, opened st s'))
unfolding round
round-next_entry st s s' row h =
    returns (opened st s) (opened st s') (some row) (rw (round, h) refl)

collect-none :
    (fuel : ℕ) (s : Statement)
    → (next_site s.body entry_key s.cursor).0 ≡ none
    → collect (suc fuel) s.body entry_key s.cursor ≡ []
unfolding collect
collect-none fuel s h = rw (collect, h) refl

collect-some :
    (fuel : ℕ) (s s' : Statement) (row : Mt940Row)
    → IsEmitted s s' row (next_site s.body entry_key s.cursor)
    → length (collect (suc fuel) s.body entry_key s.cursor)
      ≡ suc (length (collect fuel s'.body entry_key s'.cursor))
unfolding collect
collect-some fuel s s' row e = rw (← e.moved, collect, e.is_site) refl

abbrev rows_or : List Mt940Row → Result StreamError (List Mt940Row × Statement) → List Mt940Row
rows_or other (ok found) = found.0
rows_or other (err e) = other

abbrev left_or : Statement → Result StreamError (List Mt940Row × Statement) → Statement
left_or other (ok found) = found.1
left_or other (err e) = other

no_rows :
    (fuel : ℕ) (st : Mt940Stream) (s s'' : Statement) (rows : List Mt940Row)
    → collect fuel s.body entry_key s.cursor ≡ []
    → ◌≡◌ {A = Result StreamError (List Mt940Row × Statement)} (ok ([], s)) (ok (rows, s''))
    → AreRowsOf fuel st s s'' rows
no_rows fuel st s s'' rows none_left e =
    let none_out : [] ≡ rows = ap (rows_or rows) e in
    let same : s ≡ s'' = ap (left_or s) e in
    rw (← none_out, ← same)
      (record {
        as_many = sym (ap length none_left);
        of_statement = tt;
        called = stop (opened st s);
      })

AreRows-at :
    (base base' : Carried) (n n' : ℕ) (rows : List Mt940Row)
    → base ≡ base'
    → n ≡ n'
    → AreRows base' n' rows
    → AreRows base n rows
AreRows-at base base' n n' rows eb en h = rw (eb, en) h

-- One row more, in front of those of the statement behind it.
row_more :
    (fuel : ℕ) (st : Mt940Stream) (s s' s'' : Statement) (row : Mt940Row) (rows : List Mt940Row)
    → next_entry st.source s ≡ ok (some (row, s'))
    → IsEmitted s s' row (next_site s.body entry_key s.cursor)
    → AreRowsOf fuel st s' s'' rows
    → AreRowsOf (suc fuel) st s s'' (row ∷ rows)
row_more fuel st s s' s'' row rows h e more =
    let base : s.base ≡ s'.base = ap (λ (t : Statement). t.base) e.moved in
    let next : s.emitted + 1 ≡ s'.emitted = ap (λ (t : Statement). t.emitted) e.moved in
    record {
      as_many = ap suc more.as_many ∙ sym (collect-some fuel s s' row e);
      of_statement = (
        e.carries,
        e.numbered,
        AreRows-at s.base s'.base (s.emitted + 1 + 1) (s'.emitted + 1) rows base
            (ap (λ n. n + 1) next) more.of_statement,
      );
      called =
          call (opened st s) (opened st s') (opened st s'') row rows
            (round-next_entry st s s' row h) more.called;
    }

after_entries :
    (fuel : ℕ) (st : Mt940Stream) (s s'' : Statement) (rows : List Mt940Row)
    (r : Option (Mt940Row × Statement))
    → ((s' : Statement) (rows' : List Mt940Row)
        → drain fuel st.source s' ≡ ok (rows', s'')
        → AreRowsOf fuel st s' s'' rows')
    → next_entry st.source s ≡ ok r
    → elim r as (λ _. Result StreamError (List Mt940Row × Statement)) [
      | none ↦ ok ([], s)
      | some (row, s') ↦ drain fuel st.source s' >>= λ more. ok (row ∷ more.0, more.1)
    ]
      ≡ ok (rows, s'')
    → AreRowsOf (suc fuel) st s s'' rows
unfolding next_entry
after_entries fuel st s s'' rows none recur h e =
    no_rows (suc fuel) st s s'' rows
      (collect-none fuel s (emit-none st.source s (next_site s.body entry_key s.cursor) h)) e
after_entries fuel st s s'' rows (some (row, s')) recur h e =
    let (more, e1, e2) = >>=-eq-ok (drain fuel st.source s') _ e in
    let all_rows : row ∷ more.0 ≡ rows = ap (rows_or rows) e2 in
    let left : more.1 ≡ s'' = ap (left_or s'') e2 in
    rw (← all_rows) (
      row_more fuel st s s' s'' row more.0 h
        (emit-IsEmitted st.source s s' row (next_site s.body entry_key s.cursor) h)
        (recur s' more.0 (rw (← left) e1)))

drain-AreRowsOf :
    (fuel : ℕ) (st : Mt940Stream) (s s'' : Statement) (rows : List Mt940Row)
    → drain fuel st.source s ≡ ok (rows, s'')
    → AreRowsOf fuel st s s'' rows
unfolding drain collect
drain-AreRowsOf zero st s s'' rows h = no_rows zero st s s'' rows refl h
drain-AreRowsOf (suc fuel) st s s'' rows h =
    let (r, e1, e2) = >>=-eq-ok (next_entry st.source s) _ h in
    after_entries fuel st s s'' rows r (λ s' rows'. drain-AreRowsOf fuel st s' s'' rows') e1 e2

-- Of a statement that was just opened, if none of its entries is refused, the calls of `next_row` return
-- exactly as many rows as `without_entries` counts entries; all of them carry the statement's own columns,
-- the balances among them, and they are numbered from 1 on.
pub drain-fresh :
    (st : Mt940Stream) (body : Bytes) (body_line message_line : ℕ) (base : Carried) (s' : Statement)
    (rows : List Mt940Row)
    → let s = fresh body body_line message_line base in
      drain (length body + 2) st.source s ≡ ok (rows, s')
      → (length rows ≡ (without_entries body entry_key).1)
        × AreRows base 1 rows
        × Calls (opened st s) rows (opened st s')
unfolding sites
drain-fresh st body body_line message_line base s' rows h =
    let s = fresh body body_line message_line base in
    let found = drain-AreRowsOf (length body + 2) st s s' rows h in
    (found.as_many ∙ length-sites body entry_key, found.of_statement, found.called)
