-- ===== src/Ccb/Log.antt =====
-- What may stand in the log of a machine: when an overwrite of a target is justified by what the
-- client read and asked before.
pub mod Quiet
pub mod Offering
pub mod Targets
pub mod Writing
pub mod Histories
use ccbroker.Base.{String, ◌≡◌, ◌⊎◌, Bool, true, Option, some, List, [], ◌∷◌, Dict}
use mathlib.Core.List.{Memᴰ}
use ccbroker.Json.{Value, object, of_dict}
use ccbroker.Config.AgentFile.{Target}
use ccbroker.Ccb.Gate.{settled}
use ccbroker.Ccb.State.{
  Content, document, Answer, Event, call, read_target, wrote_target, slept, offer, get_credential,
}
use ccbroker.Ccb.Local.{parse_oauth_bytes, same_oauth, merge_oauth_doc, strip_refresh_token}
use ccbroker.Ccb.Broker.{OfferResult, Envelope, offer_result, envelope_of}
use ccbroker.Ccb.Sync.{has_rt}

-- The broker's verdict on an offer lets the offered token go: adopted, known not to be a new lineage,
-- or rejected upstream while the broker's own token is attested live.
abbrev pub LetsGo : OfferResult → Bool → Type 0
LetsGo r probe_live =
    (r.adopted ≡ true)
    ⊎ (settled r.reason ≡ true)
    ⊎ ((r.reason ≡ "offer_not_live") × (probe_live ≡ true))

-- The broker was offered these two tokens earlier, and lets them go.
pub record Secured (found : Option (Dict Value)) (live : Bool) (earlier : List Event) : Type 0 where
  pub offered : Dict Value
  pub answer : Answer
  pub in_log : Memᴰ (call (offer offered) answer) earlier
  pub same : same_oauth found (some offered) ≡ true
  pub lets_go : LetsGo (offer_result answer) live

-- A write over what was read: an envelope that the broker answered earlier, without its refresh
-- token, merged into what was read; and if that held a refresh token, it is secured.
pub record Overwrites (raw : Option Content) (c : Content) (earlier : List Event) : Type 0 where
  pub name : String
  pub probe : Bool
  pub answer : Answer
  pub env : Envelope
  pub in_log : Memᴰ (call (get_credential name probe) answer) earlier
  pub body : envelope_of answer ≡ some env
  pub content :
      c ≡ document (object (of_dict (merge_oauth_doc raw (strip_refresh_token env.oauth))))
  pub safe :
      has_rt (parse_oauth_bytes raw) ≡ true → Secured (parse_oauth_bytes raw) env.probe_live earlier

-- The target was read right before, and may be overwritten.
abbrev pub Justifies : Target → Content → List Event → Type 0
Justifies t c (read_target t' raw ∷ earlier) = (t' ≡ t) × Overwrites raw c earlier
Justifies t c _ = ⊥

-- Every write in the log is justified.
abbrev pub Justified : List Event → Type 0
Justified [] = Unit
Justified (wrote_target t c ∷ log) = Justifies t c log × Justified log
Justified (read_target t raw ∷ log) = Justified log
Justified (call req a ∷ log) = Justified log
Justified (slept d ∷ log) = Justified log
