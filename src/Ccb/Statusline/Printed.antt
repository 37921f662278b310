-- ===== src/Ccb/Statusline/Printed.antt =====
-- What `ccb status` and `ccb statusline` read and then print (cmd/ccb/main.go: renderStatus,
-- printStatusline, printStatuslineAll).
use Prim.Native.String.{String}
use ccbroker.Base.{
  ℕ, ◌==◌, Option, none, List, map, if◌then◌else◌, pure, ◌>>=◌, when◌then◌else◌, match_option,
}
use ccbroker.Config.AgentFile.{Agent}
use ccbroker.Ccb.State.{World, Act, UsageRow, now, elapse}
use ccbroker.Ccb.Rotate.{read_active}
use ccbroker.Ccb.Statusline.Lines.{Output, table_row, active_text, render_statusline_all, row_named}

module _ (out : Output) (w : World) where
  -- os.ReadFile of the cache, with json.Unmarshal
  unfoldable pub read_status_cache : Act (Option (ℕ × List UsageRow))
  read_status_cache s =
      let s' = elapse w s in (if w.read_fails s.asked then none else s'.status_cache, s')

  -- renderStatus
  unfoldable pub render_status : List UsageRow → Act (List (List String))
  render_status rows = do
    active ← read_active w
    t ← now w
    pure (map (table_row out active t) rows)

  -- printStatusline: the line that is printed
  unfoldable pub print_statusline : Agent → Act String
  print_statusline cfg = do
    active ← read_active w
    when active == "" then pure "ccb: no active account" else (do
      cache ← read_status_cache
      match_option cache (pure active) λ got.
          match_option (row_named active got.1) (pure active)
            λ r. (do t ← now w; pure (active_text out cfg got.0 t r)))

  -- printStatuslineAll
  unfoldable pub print_statusline_all : Act String
  print_statusline_all = do
    active ← read_active w
    cache ← read_status_cache
    match_option cache (pure active)
        λ got. (do t ← now w; pure (render_statusline_all out active got t))
