-- ===== src/Ccb/Local/Merging.antt =====
-- What the written credentials document keeps.
use ccbroker.Base.{
  String, ◌==◌, eq_iff, ◌≡◌, ◌≢◌, ◌∙◌, false, Option, some, Dict, lookup, lookup-insert, arith,
  if◌then◌else◌,
}
use ccbroker.Json.{Value, Fields, object, to_dict, of_dict}
use ccbroker.Json.Printing.{lookup-of_dict}
use ccbroker.Ccb.State.{Content, document}
use ccbroker.Ccb.Local.{has, as_map, kept_keys, first_value, merge_oauth_doc}

-- The document that is written over `cur`.
abbrev pub written : Option Content → Dict Value → Content
written cur oauth = document (object (of_dict (merge_oauth_doc cur oauth)))

lookup-merge_oauth_doc :
    (k : String) (cur : Option Content) (oauth : Dict Value)
    → lookup k (to_dict (of_dict (merge_oauth_doc cur oauth))) ≡ (
        if "claudeAiOauth" == k
        then some (object (of_dict oauth))
        else lookup k (kept_keys (as_map (first_value cur))))
unfolding merge_oauth_doc
lookup-merge_oauth_doc k cur oauth =
    lookup-of_dict k _ ∙ lookup-insert "claudeAiOauth" k (object (of_dict oauth)) _

-- A document that is a JSON object without a top-level accessToken keeps every key but claudeAiOauth
-- in what mergeOAuthDoc writes over it.
pub merge_oauth_doc_keeps :
    (cur : Content) (fs : Fields) (oauth : Dict Value) (k : String)
    → first_value (some cur) ≡ some (object fs)
    → has "accessToken" (to_dict fs) ≡ false
    → k ≢ "claudeAiOauth"
    → lookup k (to_dict (of_dict (merge_oauth_doc (some cur) oauth))) ≡ lookup k (to_dict fs)
merge_oauth_doc_keeps cur fs oauth k first bare other =
    lookup-merge_oauth_doc k (some cur) oauth
    ∙ (rw first (ground (arith, eq_iff "claudeAiOauth" k)))
