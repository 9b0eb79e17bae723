-- ===== src/Samples.antt =====
-- Values that the tests of several modules share: a server, a client, an entity with two subkeys.
use protonmail_go.Prelude.{ℕ, true, false, none, some, [], ◌∷◌, pos, eqb}
use protonmail_go.Http.{Bytes, HttpClient, Response, replied}
use protonmail_go.Result.{Result, ok}
use protonmail_go.Client.{Config, Session, default_config}
use protonmail_go.Transport.{Net, Wire, Envelope}
use protonmail_go.Pgp.{Signature, PrivateKeyPacket, Subkey, Entity, KeyRules}
use protonmail_go.Streams.{StreamIo, PacketConfig, all}

abbrev pub reply_with : ℕ → Response
reply_with status = record { status_code = status; status = ""; body = 1 ∷ 2 ∷ [] }

-- A server that answers every request with the status that its state is.
abbrev pub server : HttpClient ℕ
server status q = (replied (reply_with status), status)

abbrev pub plain : Config ℕ
plain = record (default_config server 0) { app_version = "t/1" }

abbrev pub session : Session
session = record { uid = "u"; access_token = "token"; key_ring = [] }

abbrev pub net_at : ℕ → Net ℕ
net_at status = record { session = session; world = status; open_bodies = 0; sent = []; log = [] }

abbrev pub wire : Wire
wire = record {
  url_path = λ u. ok u;
  unmarshal_resp =
      λ b. ok (record { code = pos 8002; error_message = some "denied"; payload = tt });
}

-- Every body decodes to the value, without an error.
abbrev pub decodes : {A : Type 0} → A → Bytes → Result (Envelope A)
decodes a b = ok (record { code = pos 1000; error_message = none; payload = a })

abbrev pub signature_at : ℕ → Signature
signature_at time = record {
  is_primary_id = none;
  flags_valid = true;
  flag_encrypt_communications = true;
  flag_sign = true;
  creation_time = time;
}

abbrev pub private_packet : PrivateKeyPacket
private_packet = record {
  key_id = 7;
  pub_key_algo = 1;
  fingerprint = 7 ∷ [];
  is_encrypted = false;
  material = [];
}

abbrev pub subkey_at : ℕ → Subkey
subkey_at time = record {
  public_key = record { key_id = time; pub_key_algo = 1 };
  private_key = some private_packet;
  sig = signature_at time;
  revocations = [];
}

abbrev pub entity : Entity
entity = record {
  primary_key = record { key_id = 1; pub_key_algo = 1 };
  private_key = some private_packet;
  identities = record { name = "a"; self_signature = signature_at 1 } ∷ [];
  revocations = [];
  subkeys = subkey_at 3 ∷ subkey_at 5 ∷ subkey_at 4 ∷ [];
}

abbrev pub rules : KeyRules
rules = record {
  can_encrypt = λ a. eqb a 1;
  can_sign = λ a. eqb a 1;
  key_expired = λ k s now. false;
  sig_expired = λ s now. false;
}

-- Writers that never fail, with signatures that are the bytes that were hashed.
abbrev pub quiet_io : StreamIo
quiet_io = record {
  begin = λ h. none;
  write_packet = λ d p. none;
  begin_literal = λ d l. none;
  write_literal = λ d b. all;
  end_literal = λ d. none;
  close = λ d. none;
  sign = λ signer unsigned bytes. ok bytes;
}

abbrev pub default_packets : PacketConfig
default_packets = record {
  cipher = 7;
  aead = false;
  aead_mode = 2;
  now = 9;
  sig_lifetime = 0;
  notations = [];
}
