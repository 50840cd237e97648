-- ===== src/Examples/Decimals.antt =====
-- The unit tests of src/decimal.rs.
use quackiso.Base.{◌≡◌, refl, ok, err, codes, none, some, true, ◌++◌, replicate, arith}
use quackiso.Base.Int.{pos, negsuc}
use quackiso.Text.Trim.{trim}
use quackiso.Decimal.Units.{units, in_column}
use quackiso.Decimal.Exact.{unsigned, minus, written, scaled-written, scaled-too_precise}
use quackiso.Decimal.Sound.{Accepted, scaled-Accepted}
use quackiso.Decimal.{scaled, scaled_opt, too_large, too_precise, not_a_number, empty_amount}

exact_where_float_is_not : scaled (codes "1500.10") ≡ ok (pos 150_010_000)
unfolding scaled
exact_where_float_is_not = refl

shapes_seen_in_real_messages :
    (scaled (codes " 75000.5 ") ≡ ok (pos 7_500_050_000))
    × (scaled (codes "-600.00") ≡ ok (negsuc 59_999_999))
    × (scaled (codes "+12.34") ≡ ok (pos 1_234_000))
    × (scaled (codes ".5") ≡ ok (pos 50_000))
unfolding scaled
shapes_seen_in_real_messages = (refl, refl, refl, refl)

refused :
    (scaled (codes "1200000000000000000000000000000000.00000")
      ≡ err (too_large (codes "1200000000000000000000000000000000.00000")))
    × (scaled (codes "1.234567") ≡ err (too_precise (codes "1.234567") 6))
    × (scaled (codes "1,234.00") ≡ err (not_a_number (codes "1,234.00")))
    × (scaled (codes "") ≡ err empty_amount)
    × (scaled_opt (some (codes "  ")) ≡ ok none)
unfolding scaled scaled_opt
refused = (refl, refl, refl, refl, refl)

scaled-written_example :
    scaled (written minus (codes "12") (codes "3" ++ replicate 6 b'0'))
    ≡ in_column
        (written minus (codes "12") (codes "3" ++ replicate 6 b'0'))
        true
        (units (codes "12") (codes "3"))
scaled-written_example =
    scaled-written minus (codes "12") (codes "3") 6 (omega arith) (omega arith) (omega arith)
      (omega arith)

scaled-too_precise_example :
    scaled (written unsigned (codes "1") (codes "234567" ++ replicate 2 b'0'))
    ≡ err (too_precise (written unsigned (codes "1") (codes "234567" ++ replicate 2 b'0')) 6)
scaled-too_precise_example =
    scaled-too_precise unsigned (codes "1") (codes "234567") 2 (omega arith) (omega arith)
      (omega arith) (omega arith)

scaled-Accepted_example : Accepted (trim (codes " 75000.5 ")) (pos 7_500_050_000)
scaled-Accepted_example =
    scaled-Accepted (codes " 75000.5 ") (pos 7_500_050_000) shapes_seen_in_real_messages.0
