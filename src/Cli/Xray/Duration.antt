-- ===== src/Cli/Xray/Duration.antt =====
-- sk-cli/src/xray/util.rs: times since the start of a trace, as they are shown.
use simkube.Common.{ℕ, ◌-◌, ◌/◌, ◌%◌, suc, String, ltb, if◌then◌else◌}
use simkube.Common.Int.{ℤ, pos, negsuc}
use simkube.Common.Decimal.{padded}
use simkube.Common.Text.{append}

-- `{:02}` of an integer; the sign takes one of the places.
show_02 : ℤ → String
show_02 (pos n) = padded 2 n
show_02 (negsuc n) = append "-" (padded 1 (suc n))

neg : ℕ → ℤ
neg n = if ltb 0 n then negsuc (n - 1) else pos 0

-- Division and remainder of integers round towards zero.
div : ℤ → ℕ → ℤ
unfolding neg
div (pos n) d = pos (n / d)
div (negsuc n) d = neg (suc n / d)

rem : ℤ → ℕ → ℤ
unfolding neg
rem (pos n) d = pos (n % d)
rem (negsuc n) d = neg (suc n % d)

day_str : ℤ → String
day_str (pos n) = if ltb 0 n then append (padded 1 n) "d " else ""
day_str (negsuc n) = ""

-- A duration is its number of seconds.
unfoldable pub format_duration : ℤ → String
unfolding show_02 div rem day_str
format_duration d = append (day_str (div d 86400)) (
    append (show_02 (rem (div d 3600) 24))
      (append ":" (append (show_02 (rem (div d 60) 60)) (append ":" (show_02 (rem d 60))))))
