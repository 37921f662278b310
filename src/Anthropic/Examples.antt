-- ===== src/Anthropic/Examples.antt =====
-- Answers of the upstream API.
use ccbroker.Anthropic.{
  FetchError, Grant, RefreshError, Response, accept_grant, auth_failure, decode_grant, error_code,
  granted, permanent_code, refresh, refused, status_error,
}
use ccbroker.Base.{contains, insert, lookup, pos, refl, some, true, ◌≡◌}
use ccbroker.Json.{field, no_fields, object, text, text_at, to_dict}

abbrev revoked_answer : FetchError
revoked_answer = status_error 403 "OAuth token has been Revoked"

counts : auth_failure revoked_answer ≡ true
unfolding auth_failure contains
counts = refl

abbrev void_answer : Response
void_answer = record {
  status = 400;
  body = "";
  json = some (object (field "error" (text "invalid_grant") no_fields));
}

abbrev void_error : RefreshError
void_error = record { status = 400; code = "invalid_grant"; body = ""; permanent = true }

void-refused : refresh (some void_answer) ≡ refused void_error
unfolding refresh error_code permanent_code to_dict text_at lookup insert
void-refused = refl

abbrev grant_answer : Response
grant_answer = record {
  status = 200;
  body = "";
  json = some (object (field "access_token" (text "a2") no_fields));
}

abbrev plain_grant : Grant
plain_grant = record {
  access_token = "a2";
  refresh_token = "";
  expires_in = pos 0;
  scope = "";
  account_email = "";
  account_uuid = "";
}

plain-granted : refresh (some grant_answer) ≡ granted plain_grant
unfolding refresh accept_grant decode_grant to_dict lookup insert
plain-granted = refl
