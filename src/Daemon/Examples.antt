-- ===== src/Daemon/Examples.antt =====
-- A daemon that is started for the first time.
use ccbroker.Base.{
  trim_space, ℕ, String, ◌≡◌, refl, true, false, none, some, List, [], ◌∷◌, pos, codes, arith,
  values,
}
use ccbroker.Config.{ServerConfig, load_server}
use ccbroker.Config.KeyFile.{load_key, decode_hex}
use ccbroker.Store
use ccbroker.Store.{Store}
use ccbroker.Store.File.{Codec, load}
use ccbroker.Server.State.{Broker, gets, modify, pure, ◌>>=◌, when◌then◌else◌}
use ccbroker.Server.Route.{assert_unique, find_clash}
use ccbroker.Server.Migrate.{new_broker, migrate, migrate_each, finish}
use ccbroker.Server.Examples.{quiet_env}
use ccbroker.Daemon.{Disk, serving, serve, config_arg, open_store, genkey, encode_hex}
use ccbroker.Daemon.Started.{Started, serve-Started}
use ccbroker.Daemon.Keys.{load_key-genkey}

abbrev key : List ℕ
key =
    0 ∷ 1 ∷ 2 ∷ 3 ∷ 4 ∷ 5 ∷ 6 ∷ 7 ∷ 8 ∷ 9 ∷ 10 ∷ 11 ∷ 12 ∷ 13 ∷ 14 ∷ 15 ∷ 16 ∷ 17 ∷ 18 ∷ 19 ∷ 20
    ∷ 21 ∷ 22 ∷ 23 ∷ 24 ∷ 25 ∷ 26 ∷ 27 ∷ 28 ∷ 29 ∷ 30 ∷ 255 ∷ []

abbrev key_text : String
key_text = "000102030405060708090a0b0c0d0e0f101112131415161718191a1b1c1d1eff\n"

key-printed : codes key_text ≡ genkey key
unfolding genkey encode_hex
key-printed = refl

load_key-genkey_example : load_key key_text ≡ some key
load_key-genkey_example = load_key-genkey key key_text refl (omega arith) key-printed

abbrev config : ServerConfig
config = record {
  listen = ":8787";
  admin_listen = "127.0.0.1:8788";
  admin_token = "";
  store_path = "/s";
  key_path = "/k";
  audit_log = "";
  refresh_skew_sec = pos 3600;
  usage_poll_sec = pos 300;
  clients = [];
  serve_refresh_token = false;
}

abbrev codec : Codec
codec = record {
  nonce_size = 12;
  seal = λ nonce plain. plain;
  open_sealed = λ nonce sealed. some sealed;
  marshal = λ records. [];
  unmarshal = λ bytes. some none;
}

abbrev disk : Disk
disk = record {
  server_file = λ path. some config;
  key_file = λ path. some key_text;
  store_file = λ path. some none;
  codec = λ k. some codec;
  audit_opens = λ path. true;
  env_of = λ c. record quiet_env { cfg = c };
}

abbrev empty_store : Store
empty_store = record { data_map = []; disk = [] }

abbrev started : Broker
started = (migrate (disk.env_of config) (new_broker empty_store)).1

first_start : serve disk ("-c" ∷ "/etc/ccb.json" ∷ []) ≡ serving config started
unfolding trim_space serve config_arg open_store load load_server load_key decode_hex migrate
    migrate_each finish assert_unique find_clash Store.list values new_broker ◌>>=◌ gets pure modify
    when◌then◌else◌
first_start = refl

serve-Started_example : Started disk config started ("-c" ∷ "/etc/ccb.json" ∷ [])
serve-Started_example = serve-Started disk config started ("-c" ∷ "/etc/ccb.json" ∷ []) first_start
