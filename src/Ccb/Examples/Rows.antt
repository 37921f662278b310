-- ===== src/Ccb/Examples/Rows.antt =====
-- Three accounts: the active one used up, one half used, and one that is dead.
use ccbroker.Base.{
  Bool, ℕ, String, eq_iff, arith, true, false, Option, none, some, List, [], ◌∷◌, pos,
}
use mathlib.Core.List.{Memᴰ}
use ccbroker.Anthropic.{Bucket}
use ccbroker.Ccb.State.{UsageRow, now}
use ccbroker.Ccb.Rotate.{read_active, auto_select}
use ccbroker.Ccb.Rotate.Best.{Named}
use ccbroker.Ccb.Rotate.Selecting.{Right, auto_select-Right}
use ccbroker.Ccb.Examples.{agent, world, machine}

abbrev used : ℕ → Option Bucket
used percent =
    some (record { utilization = record { mantissa = pos percent; scale = 2 }; resets_at = pos 0 })

abbrev row : String → Bool → ℕ → UsageRow
row name dead percent = record {
  name = name;
  account = "";
  dead = dead;
  health = "ok";
  expires_at = pos 9000;
  usage = some (record { five_hour = used percent; seven_day = none; scoped_weekly = [] });
  oauth_account = none;
  usage_fetched_at = pos 0;
  usage_error = "";
}

abbrev pub rows : List UsageRow
rows = row "work" false 97 ∷ row "home" false 50 ∷ row "old" true 0 ∷ []

rows-Named : Named rows
rows-Named r (Memᴰ.head e) = λ p. ground (arith, eq_iff "work" "", e, p)
rows-Named r (Memᴰ.tail (Memᴰ.head e)) = λ p. ground (arith, eq_iff "home" "", e, p)
rows-Named r (Memᴰ.tail (Memᴰ.tail (Memᴰ.head e))) = λ p. ground (arith, eq_iff "old" "", e, p)
rows-Named r (Memᴰ.tail (Memᴰ.tail (Memᴰ.tail m))) = elim m [ ]

auto_select-Right_example :
    Right
      (now world machine).0
      "account"
      agent.auto_threshold
      (read_active world (now world machine).1).0
      rows
      (auto_select world agent rows "account" machine).0
auto_select-Right_example = auto_select-Right world agent rows "account" machine rows-Named
