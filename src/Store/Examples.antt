-- ===== src/Store/Examples.antt =====
-- A store file, with a cipher that hides nothing.
use ccbroker.Base.{◌≡◌, refl, arith, some, [], ◌∷◌, ◌++◌, Dict, false}
use ccbroker.Creds.{Record, ok}
use ccbroker.Store.File.{Codec, load, sealed_file, load-sealed_file}

abbrev work : Record
work = record {
  name = "work";
  account = "a@x";
  account_uuid = "u1";
  oauth = [];
  gen = 7;
  health_state = ok;
  health_since = 0;
  retired_hashes = [];
  updated_at = 0;
  legacy_dead = false;
  last_error = "";
}

abbrev records : Dict Record
records = ("work", work) ∷ []

abbrev codec : Codec
codec = record {
  nonce_size = 2;
  seal = λ nonce pt. pt ++ nonce;
  open_sealed = λ nonce ct. some (1 ∷ 2 ∷ []);
  marshal = λ rs. 1 ∷ 2 ∷ [];
  unmarshal = λ b. some (some records);
}

load-sealed_file_example : load codec (some (sealed_file codec (8 ∷ 9 ∷ []) records)) ≡ some records
load-sealed_file_example = load-sealed_file codec (8 ∷ 9 ∷ []) records refl (omega arith) refl refl
