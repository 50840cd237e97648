-- ===== src/Temporal/Zones.antt =====
-- Written zones, and what `with_zone` makes of them.
use quackiso.Base.{
  ℕ, ◌+◌, ◌*◌, ◌≤◌, ◌≡◌, Bool, true, false, [], ◌∷◌, ◌++◌, some, Bytes, All, All-append, arith,
  if◌then◌else◌,
}
use quackiso.Base.Int.{ℤ, pos, ◌+ℤ◌, ◌-ℤ◌}
use quackiso.Text.Digits.{digits-IsGraphic}
use quackiso.Text.Trim.{trim_graphic, IsGraphic}
use quackiso.Temporal.{offset_minutes, shift_by, with_zone}
use quackiso.Temporal.Written.{two, num-two, two-IsDigit}

-- What may stand behind the time: nothing, `Z`, or an offset in hours and minutes.
pub data Zone : Type 0 where
  unstated utc : Zone
  east west : ℕ → ℕ → Zone

abbrev pub zone_text : Zone → Bytes
zone_text unstated = []
zone_text utc = b'Z' ∷ []
zone_text (east oh om) = b'+' ∷ (two oh ++ (b':' ∷ two om))
zone_text (west oh om) = b'-' ∷ (two oh ++ (b':' ∷ two om))

abbrev pub IsZone : Zone → Type 0
IsZone (east oh om) = (oh ≤ 99) × (om ≤ 99)
IsZone (west oh om) = (oh ≤ 99) × (om ≤ 99)
IsZone _ = Unit

-- A local time in the zone, in UTC.
abbrev pub to_utc : Zone → ℤ → ℤ
to_utc (east oh om) micros = micros -ℤ pos ((oh * 3600 + om * 60) * 1_000_000)
to_utc (west oh om) micros = micros +ℤ pos ((oh * 3600 + om * 60) * 1_000_000)
to_utc _ micros = micros

pub two-IsGraphic : (n : ℕ) → All IsGraphic (two n)
two-IsGraphic n = digits-IsGraphic (two n) (two-IsDigit n)

offset-IsGraphic : (c oh om : ℕ) → IsGraphic c → All IsGraphic (c ∷ (two oh ++ (b':' ∷ two om)))
offset-IsGraphic c oh om h = (
  h,
  All-append IsGraphic (two oh) (b':' ∷ two om) (two-IsGraphic oh) (omega arith, two-IsGraphic om),
)

pub zone_text-IsGraphic : (z : Zone) → All IsGraphic (zone_text z)
zone_text-IsGraphic unstated = tt
zone_text-IsGraphic utc = (omega arith, tt)
zone_text-IsGraphic (east oh om) = offset-IsGraphic b'+' oh om (omega arith)
zone_text-IsGraphic (west oh om) = offset-IsGraphic b'-' oh om (omega arith)

offset_minutes-written :
    (c oh om : ℕ) → om ≤ 99 → offset_minutes (c ∷ (two oh ++ (b':' ∷ two om))) ≡ some om
unfolding offset_minutes
offset_minutes-written c oh om h = num-two om h

shift_by-written :
    (micros : ℤ) (to_east : Bool) (c oh om : ℕ)
    → oh ≤ 99
    → om ≤ 99
    → shift_by micros to_east (c ∷ (two oh ++ (b':' ∷ two om)))
      ≡ some (
          if to_east
          then micros -ℤ pos ((oh * 3600 + om * 60) * 1_000_000)
          else micros +ℤ pos ((oh * 3600 + om * 60) * 1_000_000))
unfolding shift_by
shift_by-written micros to_east c oh om h k = rw (num-two oh h, offset_minutes-written c oh om k)

pub with_zone-written :
    (micros : ℤ) (z : Zone) → IsZone z → with_zone micros (zone_text z) ≡ some (to_utc z micros)
unfolding with_zone
with_zone-written micros unstated h = rw (trim_graphic [] tt)
with_zone-written micros utc h = rw (trim_graphic (b'Z' ∷ []) (omega arith))
with_zone-written micros (east oh om) (h, k) =
    rw (trim_graphic (zone_text (east oh om)) (zone_text-IsGraphic (east oh om)))
      (shift_by-written micros true b'+' oh om h k)
with_zone-written micros (west oh om) (h, k) =
    rw (trim_graphic (zone_text (west oh om)) (zone_text-IsGraphic (west oh om)))
      (shift_by-written micros false b'-' oh om h k)
