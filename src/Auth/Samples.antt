-- ===== src/Auth/Samples.antt =====
-- Values that the tests of authentications share: an account, a codec, a login.
use protonmail_go.Prelude.{ℕ, none, some, [], ◌∷◌, pos}
use protonmail_go.Result.{ok}
use protonmail_go.Samples.{decodes, entity}
use protonmail_go.Password.{Hashes}
use protonmail_go.Account.{AccountJson, PrivateKey, User}
use protonmail_go.KeyUnlock.{UnlockPgp}
use protonmail_go.Auth.{Auth, AuthInfo, AuthCodec}
use protonmail_go.Auth.Login.{Login}

abbrev pub login : Auth
login = record {
  expires_at = pos 0;
  scope = "";
  uid = "new";
  access_token = "fresh";
  refresh_token = "r";
  user_id = "";
  event_id = "";
  password_mode = pos 1;
  two_factor_enabled = pos 0;
  two_factor_totp = pos 0;
}

abbrev pub codec : AuthCodec
codec = record {
  encode_username = λ s. ok [];
  encode_code = λ s. ok [];
  encode_refresh = λ r. ok [];
  decode_auth_info = decodes (record {
    version = pos 4;
    modulus = "";
    server_ephemeral = "";
    salt = "";
    srp_session = "";
  });
  decode_auth =
      decodes (record { auth = login; expires_in = pos 60; token_type = ""; server_proof = "" });
  decode_scope = decodes "full";
  decode_salts = decodes [];
  decode_resp = decodes tt;
  base64_decode = λ s. ok [];
  expiry = λ s. s;
}

abbrev pub hashes : Hashes
hashes = record { bcrypt = λ password salt. ok []; sha512 = λ b. b }

abbrev pub pgp : UnlockPgp
pgp = record {
  read_key_ring = λ text. ok (entity ∷ []);
  decrypt = λ priv pass. ok priv;
  decode_armor = λ text. ok [];
  read_message = λ ring b. ok b;
  check_signature = λ ring b sig. none;
}

abbrev pub key : PrivateKey
key = record {
  id = "k";
  version = pos 3;
  flags = pos 0;
  private_key = "armored";
  fingerprint = "f";
  primary = pos 1;
  active = pos 1;
  token = "";
  signature = "";
}

abbrev pub user : User
user = record {
  id = "u";
  name = "ann";
  used_space = pos 0;
  currency = "";
  credit = pos 0;
  max_space = pos 0;
  max_upload = pos 0;
  role = pos 0;
  private = pos 0;
  subscribed = pos 0;
  services = pos 0;
  delinquent = pos 0;
  keys = key ∷ [];
}

abbrev pub json : AccountJson
json = record {
  decode_user = decodes (some user);
  decode_addresses = decodes [];
  decode_labels = decodes [];
  decode_public_keys = decodes none;
}

abbrev pub info : AuthInfo
info = record {
  version = pos 4;
  modulus = "m";
  server_ephemeral = "e";
  salt = "s";
  srp_session = "x";
}

abbrev pub full_login : Login ℕ
full_login = record {
  codec = codec;
  srp_codec = record {
    clearsign_decode = λ s. some s;
    check_modulus = λ s. none;
    base64_decode = λ s. ok (1 ∷ []);
  };
  hashes = hashes;
  rand = λ max w. (ok 9, w);
  draws = 1;
  encode_request = λ r. ok [];
  base64_encode = λ b. "";
}
