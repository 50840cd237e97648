-- ===== src/Temporal/Stamps.antt =====
-- Written date-times, with a fraction of the second and a zone, and `ts_micros` of them.
use native.Mathlib.Numerals.{one-add}
use quackiso.Base.{
  ℕ, zero, suc, ◌+◌, ◌*◌, ◌-◌, ◌≤◌, ◌≡◌, refl, ◌∙◌, ap, List, [], ◌∷◌, ◌++◌, none, some, Bytes, All,
  All-append, All-replicate, arith, le→leb, if◌then◌else◌, length, drop, take, replicate,
  Bool-cases, inl, inr, drop-append, length-replicate, le→ltb_false,
}
use quackiso.Base.Int.{ℤ, pos, ◌+ℤ◌, ◌*ℤ◌, int_laws}
use quackiso.Text.{is_digit, span}
use quackiso.Text.Digits.{IsDigit, digits-IsGraphic, all-is_digit, number, number_from}
use quackiso.Text.Trim.{trim_graphic, IsGraphic}
use quackiso.Temporal.{
  num, with_zone, six_digits, with_fraction, with_seconds, with_time, strip_separator, ts_micros,
}
use quackiso.Temporal.Civil.{valid, days_from_civil}
use quackiso.Temporal.Written.{two, num-two}
use quackiso.Temporal.Dates.{extended, split_date-extended, extended-IsGraphic, is_ascii-IsGraphic}
use quackiso.Temporal.Zones.{
  Zone, unstated, utc, east, west, zone_text, IsZone, to_utc, two-IsGraphic, zone_text-IsGraphic,
  with_zone-written,
}

-- The digits behind the point of the seconds, with the point, if there are any.
abbrev pub fraction_text : Bytes → Bytes
fraction_text [] = []
fraction_text (c ∷ f) = b'.' ∷ c ∷ f

-- `HH:MM:SS` with a fraction and a zone, and `YYYY-MM-DDTHH:MM:SS` with the same.
abbrev pub seconds_text : ℕ → Bytes → Zone → Bytes
seconds_text sec f z = b':' ∷ (two sec ++ (fraction_text f ++ zone_text z))

abbrev pub clock_text : ℕ → ℕ → ℕ → Bytes → Zone → Bytes
clock_text h mi sec f z = two h ++ (b':' ∷ (two mi ++ seconds_text sec f z))

abbrev pub stamp_text : ℕ → ℕ → ℕ → ℕ → ℕ → ℕ → Bytes → Zone → Bytes
stamp_text y m d h mi sec f z = extended y m d (b'T' ∷ clock_text h mi sec f z)

-- What the digits behind the point are worth, in microseconds: the first one tenths of a second, the
-- sixth one microseconds, and those behind it nothing.
abbrev worths : List ℕ
worths = 100_000 ∷ 10_000 ∷ 1_000 ∷ 100 ∷ 10 ∷ 1 ∷ []

abbrev worth_of : List ℕ → Bytes → ℕ
worth_of [] f = 0
worth_of (w ∷ ws) [] = 0
worth_of (w ∷ ws) (c ∷ f) = (c - b'0') * w + worth_of ws f

abbrev pub fraction_micros : Bytes → ℕ
fraction_micros f = worth_of worths f

number-six_digits : (f : Bytes) → number (six_digits f) ≡ fraction_micros f
unfolding number number_from six_digits
number-six_digits [] = refl
number-six_digits (a ∷ []) = omega arith
number-six_digits (a ∷ b ∷ []) = omega arith
number-six_digits (a ∷ b ∷ c ∷ []) = omega arith
number-six_digits (a ∷ b ∷ c ∷ d ∷ []) = omega arith
number-six_digits (a ∷ b ∷ c ∷ d ∷ x ∷ []) = omega arith
number-six_digits (a ∷ b ∷ c ∷ d ∷ x ∷ y ∷ s) =
    let filled : 6 - suc (suc (suc (suc (suc (suc (length s)))))) ≡ 0 = omega arith in
    rw filled (omega arith)

length-cut_or_fill : (n : ℕ) (f : Bytes) → length (take n f ++ replicate (n - length f) b'0') ≡ n
length-cut_or_fill zero [] = refl
length-cut_or_fill zero (c ∷ f) =
    rw (length-replicate {A = ℕ} (0 - suc (length f)) b'0') (omega arith)
length-cut_or_fill (suc n) [] = rw (length-replicate {A = ℕ} (suc n - 0) b'0') (omega arith)
length-cut_or_fill (suc n) (c ∷ f) =
    let e : suc n - suc (length f) ≡ n - length f = omega arith in
    rw e (ap suc (length-cut_or_fill n f))

All-take : (n : ℕ) (f : Bytes) → All IsDigit f → All IsDigit (take n f)
All-take zero f h = tt
All-take (suc n) [] h = tt
All-take (suc n) (c ∷ f) (p, h) = (p, All-take n f h)

six_digits-IsDigit : (f : Bytes) → All IsDigit f → All IsDigit (six_digits f)
unfolding six_digits
six_digits-IsDigit f h =
    All-append IsDigit (take 6 f) (replicate (6 - length f) b'0') (All-take 6 f h)
      (All-replicate IsDigit (6 - length f) b'0' (omega arith))

num-six : (s : Bytes) → length s ≡ 6 → All IsDigit s → num s ≡ some (number s)
unfolding num
num-six [] e h = absurd (omega arith)
num-six (a ∷ []) e h = absurd (omega arith)
num-six (a ∷ b ∷ []) e h = absurd (omega arith)
num-six (a ∷ b ∷ c ∷ []) e h = absurd (omega arith)
num-six (a ∷ b ∷ c ∷ d ∷ []) e h = absurd (omega arith)
num-six (a ∷ b ∷ c ∷ d ∷ x ∷ []) e h = absurd (omega arith)
num-six (a ∷ b ∷ c ∷ d ∷ x ∷ y ∷ []) e h =
    rw (all-is_digit (a ∷ b ∷ c ∷ d ∷ x ∷ y ∷ []) h) (unfold number number_from in ground arith)
num-six (a ∷ b ∷ c ∷ d ∷ x ∷ y ∷ z ∷ s) e h = absurd (omega arith)

num-six_digits : (f : Bytes) → All IsDigit f → num (six_digits f) ≡ some (fraction_micros f)
num-six_digits f h =
    num-six (six_digits f) (unfold six_digits in length-cut_or_fill 6 f) (six_digits-IsDigit f h)
    ∙ ap some (number-six_digits f)

-- `take_while` takes the digits of the fraction and stops at the zone.
span-zone :
    (f : Bytes) (z : Zone) → All IsDigit f → span is_digit (f ++ zone_text z) ≡ (f, zone_text z)
unfolding span
span-zone [] unstated h = refl
span-zone [] utc h = refl
span-zone [] (east oh om) h = refl
span-zone [] (west oh om) h = refl
span-zone (c ∷ f) z (p, h) = ground (arith, span-zone f z h)

with_fraction-zone :
    (micros : ℤ) (z : Zone) → with_fraction micros (zone_text z) ≡ with_zone micros (zone_text z)
unfolding with_fraction
with_fraction-zone micros unstated = refl
with_fraction-zone micros utc = refl
with_fraction-zone micros (east oh om) = refl
with_fraction-zone micros (west oh om) = refl

plus_zero : (a : ℤ) → a +ℤ pos 0 ≡ a
plus_zero a = omega int_laws

with_fraction-written :
    (micros : ℤ) (f : Bytes) (z : Zone)
    → All IsDigit f
    → IsZone z
    → with_fraction micros (fraction_text f ++ zone_text z)
      ≡ some (to_utc z (micros +ℤ pos (fraction_micros f)))
with_fraction-written micros [] z hf hz =
    let none_there : fraction_micros [] ≡ 0 = refl in
    rw (none_there, plus_zero micros) (with_fraction-zone micros z ∙ with_zone-written micros z hz)
with_fraction-written micros (c ∷ f) z hf hz =
    let behind : drop (1 + length (c ∷ f)) (b'.' ∷ ((c ∷ f) ++ zone_text z)) ≡ zone_text z =
      rw one-add (drop-append (c ∷ f) (zone_text z)) in
    unfold with_fraction in
    rw (span-zone (c ∷ f) z hf, num-six_digits (c ∷ f) hf, behind)
      (with_zone-written (micros +ℤ pos (fraction_micros (c ∷ f))) z hz)

with_seconds-written :
    (micros : ℤ) (sec : ℕ) (f : Bytes) (z : Zone)
    → sec ≤ 60
    → All IsDigit f
    → IsZone z
    → with_seconds micros (seconds_text sec f z)
      ≡ some (to_utc z (micros +ℤ pos (sec * 1_000_000) +ℤ pos (fraction_micros f)))
unfolding with_seconds
with_seconds-written micros sec f z hs hf hz =
    let long = le→leb 3 (length (seconds_text sec f z)) (omega arith) in
    rw (long, num-two sec (omega arith), le→ltb_false 60 sec hs)
      (with_fraction-written (micros +ℤ pos (sec * 1_000_000)) f z hf hz)

with_time-written :
    (micros : ℤ) (h mi sec : ℕ) (f : Bytes) (z : Zone)
    → h ≤ 23
    → mi ≤ 59
    → sec ≤ 60
    → All IsDigit f
    → IsZone z
    → with_time micros (clock_text h mi sec f z)
      ≡ some (
          to_utc z (
            micros
            +ℤ pos ((h * 3600 + mi * 60) * 1_000_000)
            +ℤ pos (sec * 1_000_000)
            +ℤ pos (fraction_micros f)))
unfolding with_time
with_time-written micros h mi sec f z hh hm hs hf hz =
    let long = le→leb 5 (length (clock_text h mi sec f z)) (omega arith) in
    rw
      (
        long,
        num-two h (omega arith),
        num-two mi (omega arith),
        le→ltb_false 23 h hh,
        le→ltb_false 59 mi hm,
      )
      (with_seconds-written (micros +ℤ pos ((h * 3600 + mi * 60) * 1_000_000)) sec f z hs hf hz)

fraction_text-IsGraphic : (f : Bytes) → All IsDigit f → All IsGraphic (fraction_text f)
fraction_text-IsGraphic [] h = tt
fraction_text-IsGraphic (c ∷ f) h = (omega arith, digits-IsGraphic (c ∷ f) h)

clock_text-IsGraphic :
    (h mi sec : ℕ) (f : Bytes) (z : Zone) → All IsDigit f → All IsGraphic (clock_text h mi sec f z)
clock_text-IsGraphic h mi sec f z hf =
    All-append IsGraphic (two h) (b':' ∷ (two mi ++ seconds_text sec f z)) (two-IsGraphic h) (
      omega arith,
      All-append IsGraphic (two mi) (seconds_text sec f z) (two-IsGraphic mi) (
        omega arith,
        All-append IsGraphic (two sec) (fraction_text f ++ zone_text z) (two-IsGraphic sec) (
            All-append IsGraphic (fraction_text f) (zone_text z) (fraction_text-IsGraphic f hf)
              (zone_text-IsGraphic z)),
      ),
    )

-- The microseconds of a time of day.
abbrev pub time_micros : ℕ → ℕ → ℕ → Bytes → ℕ
time_micros h mi sec f = (h * 3600 + mi * 60 + sec) * 1_000_000 + fraction_micros f

add_times :
    (a : ℤ) (h mi sec n : ℕ)
    → a +ℤ pos ((h * 3600 + mi * 60) * 1_000_000) +ℤ pos (sec * 1_000_000) +ℤ pos n
      ≡ a +ℤ pos ((h * 3600 + mi * 60 + sec) * 1_000_000 + n)
add_times a h mi sec n = omega int_laws

-- A date-time written as `YYYY-MM-DDTHH:MM:SS`, with a fraction of any length or none, and with no
-- zone, with `Z` or with an offset `+HH:MM` or `-HH:MM`, is read as the microseconds of its days and
-- of its time of day, the first digit of the fraction worth tenths of a second, the next ones
-- hundredths and so on down to the sixth, which is worth microseconds, and those behind it worth
-- nothing, less the offset (plus a western one), if the date is one of the calendar, and as nothing
-- if it is not.
pub ts_micros-written :
    (y m d h mi sec : ℕ) (f : Bytes) (z : Zone)
    → y ≤ 9999
    → m ≤ 99
    → d ≤ 99
    → h ≤ 23
    → mi ≤ 59
    → sec ≤ 60
    → All IsDigit f
    → IsZone z
    → ts_micros (stamp_text y m d h mi sec f z) ≡ (
        if valid y m d
        then some
            (to_utc z (days_from_civil y m d *ℤ 86_400_000_000 +ℤ pos (time_micros h mi sec f)))
        else none)
unfolding ts_micros strip_separator
ts_micros-written y m d h mi sec f z hy hm hd hh hmi hs hf hz =
    let text = stamp_text y m d h mi sec f z in
    let visible =
      extended-IsGraphic y m d (b'T' ∷ clock_text h mi sec f z)
        (omega arith, clock_text-IsGraphic h mi sec f z hf) in
    let split =
      split_date-extended y m d (b'T' ∷ clock_text h mi sec f z) hy hm hd
        (is_ascii-IsGraphic text visible) in
    elim (Bool-cases (valid y m d)) [
      | inl date ↦
          rw
            (
              trim_graphic text visible,
              split,
              date,
              ← add_times (days_from_civil y m d *ℤ 86_400_000_000) h mi sec (fraction_micros f),
            )
            (with_time-written (days_from_civil y m d *ℤ 86_400_000_000) h mi sec f z hh hmi hs hf
              hz)
      | inr other ↦ rw (trim_graphic text visible, split, other)
    ]
