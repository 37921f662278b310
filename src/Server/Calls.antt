-- ===== src/Server/Calls.antt =====
-- What reaches the running broker (server.go: the routes of Serve, and the ticks of RunRefreshLoop
-- and RunUsageLoop), one after the other; what runs beside a call is in its environment.
pub mod Kept
pub mod Stored
pub mod Growing
pub mod Versions
use ccbroker.Base.{String, Option, List, [], ◌∷◌}
use ccbroker.Json.{Value}
use ccbroker.Server.State.{Broker, Env}
use ccbroker.Server.Refresh.{refresh_due}
use ccbroker.Server.Health.{poll}
use ccbroker.Server.GetCred.{CredRequest, handle_get_cred}
use ccbroker.Server.Offer.{OfferRequest, handle_offer}
use ccbroker.Server.Admin.{Method, handle_admin, handle_usage}

pub data Call : Type 0 where
  get_cred : CredRequest → Call
  offer : OfferRequest → Call
  usage : String → Call
  -- the token, the method, the path and the body
  admin : String → Method → String → Option Value → Call
  refresh_tick poll_tick : Call

unfoldable pub step : Env → Call → Broker → Broker
step env (get_cred req) s = (handle_get_cred env req s).1
step env (offer req) s = (handle_offer env req s).1
step env (usage header) s = (handle_usage env header s).1
step env (admin token m path body) s = (handle_admin env token m path body s).1
step env refresh_tick s = (refresh_due env s).1
step env poll_tick s = (poll env s).1

unfoldable pub run : Env → List Call → Broker → Broker
run env [] s = s
run env (c ∷ cs) s = run env cs (step env c s)
