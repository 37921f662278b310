-- ===== src/Ccb/Statusline/Countdown.antt =====
-- The countdown of a window.
use ccbroker.Base.{ℕ, ◌+◌, ◌*◌, ◌≤◌, ◌<◌, arith}
use ccbroker.Ccb.Statusline.{Remain, days, hours, minutes, fmt_remain}

-- The parts of a countdown are in range and, with what is cut off, are the seconds.
abbrev pub Counts : ℕ → Remain → Type 0
Counts sec (days d h) =
    (0 < d) × (h < 24) × (d * 86400 + h * 3600 ≤ sec) × (sec < d * 86400 + h * 3600 + 3600)
Counts sec (hours h m) =
    (0 < h) × (h < 24) × (m < 60) × (h * 3600 + m * 60 ≤ sec) × (sec < h * 3600 + m * 60 + 60)
Counts sec (minutes m) = (m < 60) × (m * 60 ≤ sec) × (sec < m * 60 + 60)

-- fmtRemain shows whole days and hours, or whole hours and minutes, or whole minutes, each in its
-- range, of which nothing is lost but less than the last unit.
pub fmt_remain-Counts : (sec : ℕ) → Counts sec (fmt_remain sec)
unfolding fmt_remain
fmt_remain-Counts sec = ground arith
