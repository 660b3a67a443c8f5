-- ===== src/Duration/Examples.antt =====
-- A duration of a day, two hours, three minutes, four seconds and five milliseconds.
use state_db.Base.{◌≡◌, refl, codes}
use state_db.Base.Int.{pos, negsuc}
use state_db.Duration.{format_duration}

format_duration_text : format_duration (pos 93_784_005) ≡ codes "1:02:03:04:005"
unfolding format_duration
format_duration_text = refl

-- Minus 65 seconds and 5 milliseconds: the zeros are put before the sign.
negative_text : format_duration (negsuc 65_004) ≡ codes "0:00:-1:-5:0-5"
unfolding format_duration
negative_text = refl
