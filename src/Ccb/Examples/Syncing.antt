-- ===== src/Ccb/Examples/Syncing.antt =====
-- A machine whose refresh token is offered, adopted and then overwritten.
use ccbroker.Base.{
  ◌≡◌, refl, arith, some, [], ◌∷◌, Dict, lookup, insert, erase, strip_prefix, pure, modify, ◌>>=◌,
  match_option, when◌then◌else◌,
}
use ccbroker.Json.{reads_as, Value, object, to_dict, of_dict, text_at}
use ccbroker.Ccb.State.{document, read_file, write_file, elapse, http}
use ccbroker.Ccb.Gate.{overwrite_decision}
use ccbroker.Ccb.Local.{
  decode_cred_file, parse_oauth_bytes, merge_oauth_doc, strip_refresh_token, oauth_str, same_oauth,
  expand_home, read_at, read_local_raw, read_local_oauth, write_at, write_target,
  write_if_unchanged,
}
use ccbroker.Ccb.Broker.{
  decode_envelope, decode_offer_result, envelope_of, offer_result, get_cred_envelope, offer_cred,
}
use ccbroker.Ccb.Rotate.{resolve_cred}
use ccbroker.Ccb.Sync.{
  has_rt, offer_local, show_account, overwrite, gate, sync_offered, sync_target,
}
use ccbroker.Ccb.Log.{Justified}
use ccbroker.Ccb.Log.Histories.{watch-Justified}
use ccbroker.Ccb.Watch.{start, watch}
use ccbroker.Ccb.Watch.Pacing.{Paced, Onward, watch-Onward}
use ccbroker.Ccb.Examples.{target, agent, world, machine, served_tokens, local_document}

-- One sync of the target: a read, the offer, the fetch, the second read and the write.
abbrev after_sync : Dict Value
after_sync = merge_oauth_doc (some (document (object (of_dict local_document)))) served_tokens

sync_test :
    (sync_target world target [] machine).1.files
    ≡ ("/c/.credentials.json", document (object (of_dict after_sync))) ∷ []
unfolding sync_target read_local_oauth read_local_raw read_at read_file elapse expand_home
    strip_prefix ◌>>=◌ pure match_option modify when◌then◌else◌ parse_oauth_bytes decode_cred_file
    reads_as to_dict of_dict lookup insert erase offer_local has_rt oauth_str text_at offer_cred
    http offer_result decode_offer_result sync_offered resolve_cred get_cred_envelope envelope_of
    decode_envelope gate overwrite_decision overwrite strip_refresh_token write_if_unchanged
    same_oauth merge_oauth_doc write_target write_at write_file show_account
sync_test = refl

watch-Justified_example : Justified (watch world 1 (start agent) machine).1.log
watch-Justified_example = watch-Justified world 1 (start agent) machine tt

start-Paced : Paced (start agent)
start-Paced = (omega arith, omega arith)

watch-Onward_example : Onward (start agent) (watch world 3 (start agent) machine).0
watch-Onward_example = watch-Onward world 3 (start agent) machine start-Paced
