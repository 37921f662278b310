-- ===== src/Config/Examples.antt =====
-- A configuration file that names the two paths only.
use ccbroker.Base.{◌≡◌, refl, false, some, pos, []}
use ccbroker.Config.{ServerConfig, load_server}

abbrev paths_only : ServerConfig
paths_only = record {
  listen = "";
  admin_listen = "";
  admin_token = "";
  store_path = "creds.enc";
  key_path = "key";
  audit_log = "";
  refresh_skew_sec = pos 0;
  usage_poll_sec = pos 0;
  clients = [];
  serve_refresh_token = false;
}

abbrev filled : ServerConfig
filled = record paths_only {
  listen = ":8787";
  admin_listen = "127.0.0.1:8788";
  refresh_skew_sec = pos 3600;
  usage_poll_sec = pos 300;
}

paths_only-loads : load_server paths_only ≡ some filled
unfolding load_server
paths_only-loads = refl
