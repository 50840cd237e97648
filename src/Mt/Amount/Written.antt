-- ===== src/Mt/Amount/Written.antt =====
-- Amounts as SWIFT writes them, with a comma.
use Prim.Native.Nat.{zero, suc}
use quackiso.Base.{
  ℕ, ◌≤◌, ◌≡◌, refl, ap, ◌∙◌, false, [], ◌∷◌, ◌++◌, some, Bytes, All, All-append, All-replicate,
  length, replicate, arith,
}
use quackiso.Text.Digits.{IsDigit, digits-IsGraphic, number, number_from}
use quackiso.Text.Trim.{trim_end_matches, trim_graphic, IsGraphic}
use quackiso.Text.TrimEnd.{
  EndsOtherThan, trim_end_matches-EndsOtherThan, trim_end_matches-replicate,
}
use quackiso.Decimal.{scaled}
use quackiso.Decimal.Units.{units, in_column}
use quackiso.Decimal.Exact.{unsigned, scaled-written, scaled-written_whole}
use quackiso.Mt.Amount.{count_commas, dotted, amount}

-- The text of an amount, and that which `decimal::scaled` gets to read.
abbrev pub comma_text : Bytes → Bytes → Bytes
comma_text i f = i ++ b',' ∷ f

abbrev pub point_text : Bytes → Bytes → Bytes
point_text i [] = i
point_text i (c ∷ f) = i ++ b'.' ∷ c ∷ f

count_commas-digits : (s : Bytes) → All IsDigit s → count_commas s ≡ some 0
unfolding count_commas
count_commas-digits [] h = refl
count_commas-digits (c ∷ s) h = ground (arith, count_commas-digits s h.1)

count_commas-comma_text :
    (i f : Bytes) → All IsDigit i → All IsDigit f → count_commas (comma_text i f) ≡ some 1
unfolding count_commas
count_commas-comma_text [] f hi hf = ground (arith, count_commas-digits f hf)
count_commas-comma_text (c ∷ i) f hi hf = ground (arith, count_commas-comma_text i f hi.1 hf)

dotted-digits : (s : Bytes) → All IsDigit s → dotted s ≡ s
unfolding dotted
dotted-digits [] h = refl
dotted-digits (c ∷ s) h = ground (arith, dotted-digits s h.1)

dotted-comma_text :
    (i f : Bytes) → All IsDigit i → All IsDigit f → dotted (comma_text i f) ≡ i ++ b'.' ∷ f
unfolding dotted
dotted-comma_text [] f hi hf = ground (arith, dotted-digits f hf)
dotted-comma_text (c ∷ i) f hi hf = ground (arith, dotted-comma_text i f hi.1 hf)

digits-EndsOtherThan : (s : Bytes) → All IsDigit s → EndsOtherThan b'.' s
digits-EndsOtherThan [] h = tt
digits-EndsOtherThan (c ∷ []) h = omega arith
digits-EndsOtherThan (c ∷ d ∷ s) h = digits-EndsOtherThan (d ∷ s) h.1

point-EndsOtherThan :
    (i : Bytes) (c : ℕ) (f : Bytes) → All IsDigit (c ∷ f) → EndsOtherThan b'.' (i ++ b'.' ∷ c ∷ f)
point-EndsOtherThan [] c f h = digits-EndsOtherThan (c ∷ f) h
point-EndsOtherThan (x ∷ []) c f h = digits-EndsOtherThan (c ∷ f) h
point-EndsOtherThan (x ∷ y ∷ i) c f h = point-EndsOtherThan (y ∷ i) c f h

without_last_point :
    (i f : Bytes)
    → All IsDigit i
    → All IsDigit f
    → trim_end_matches b'.' (i ++ b'.' ∷ f) ≡ point_text i f
without_last_point i [] hi hf =
    trim_end_matches-replicate b'.' 1 i
    ∙ trim_end_matches-EndsOtherThan b'.' i (digits-EndsOtherThan i hi)
without_last_point i (c ∷ f) hi hf =
    trim_end_matches-EndsOtherThan b'.' (i ++ b'.' ∷ c ∷ f) (point-EndsOtherThan i c f hf)

pub comma_text-IsGraphic :
    (i f : Bytes) → All IsDigit i → All IsDigit f → All IsGraphic (comma_text i f)
comma_text-IsGraphic i f hi hf =
    All-append IsGraphic i (b',' ∷ f) (digits-IsGraphic i hi) (omega arith, digits-IsGraphic f hf)

amount-comma_text :
    (c : ℕ) (i f : Bytes)
    → All IsDigit (c ∷ i)
    → All IsDigit f
    → amount (comma_text (c ∷ i) f) ≡ scaled (point_text (c ∷ i) f)
unfolding amount
amount-comma_text c i f hi hf =
    let whole = trim_graphic (comma_text (c ∷ i) f) (comma_text-IsGraphic (c ∷ i) f hi hf) in
    rw (
      whole,
      count_commas-comma_text (c ∷ i) f hi hf,
      whole,
      dotted-comma_text (c ∷ i) f hi hf,
      without_last_point (c ∷ i) f hi hf,
    )

-- An amount written with a comma, at least one digit before it and any number behind it, at most
-- five of which are not trailing zeros, is read as exactly what it states in units of 10^-5, if that
-- is at most 10^38 - 1, and is refused as too large if it is more. The comma may be the last
-- character.
pub amount-written :
    (c : ℕ) (i g : Bytes) (k : ℕ)
    → All IsDigit (c ∷ i)
    → All IsDigit g
    → length g ≤ 5
    → amount (comma_text (c ∷ i) (g ++ replicate k b'0'))
      ≡ in_column (point_text (c ∷ i) (g ++ replicate k b'0')) false (units (c ∷ i) g)
amount-written c i [] zero hi hg short =
    amount-comma_text c i [] hi hg
    ∙ scaled-written_whole unsigned c i hi
    ∙ ap (in_column (c ∷ i) false) (unfold number number_from in omega arith)
amount-written c i [] (suc k) hi hg short =
    amount-comma_text c i (replicate (suc k) b'0') hi
      (All-replicate IsDigit (suc k) b'0' (omega arith))
    ∙ scaled-written unsigned (c ∷ i) [] (suc k) hi hg short (omega arith)
amount-written c i (x ∷ g) k hi hg short =
    amount-comma_text c i ((x ∷ g) ++ replicate k b'0') hi (
      All-append IsDigit (x ∷ g) (replicate k b'0') hg (All-replicate IsDigit k b'0' (omega arith)))
    ∙ scaled-written unsigned (c ∷ i) (x ∷ g) k hi hg short (omega arith)
