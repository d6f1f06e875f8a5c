-- ===== src/Utils/Time.antt =====
-- timediff of Common/utils.c: the hours, minutes and seconds against the time that they stand for.
use esthe_r.Base.{ℕ, ◌+◌, ◌*◌, ◌<◌, ◌≡◌, ◌↔◌, arith}
use esthe_r.Base.Int.{ℤ}
use esthe_r.Utils.{Clock, magnitude, timediff}

-- The seconds that hours, minutes and seconds make up.
abbrev pub in_seconds : Clock → ℕ
in_seconds c = c.hours * 3600 + c.minutes * 60 + c.seconds

-- The hours, minutes and seconds of timediff make up the difference exactly when it is less than an
-- hour; its minutes and seconds alone always do.
pub timediff-in_seconds :
    (difference : ℤ)
    → ((in_seconds (timediff difference) ≡ magnitude difference) ↔ (magnitude difference < 3600))
      × ((timediff difference).minutes * 60 + (timediff difference).seconds ≡ magnitude difference)
unfolding timediff
timediff-in_seconds difference = ((λ e. omega (arith, e), λ h. omega (arith, h)), omega arith)
