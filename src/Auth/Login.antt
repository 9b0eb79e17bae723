-- ===== src/Auth/Login.antt =====
-- Auth of auth.go: the SRP handshake, and the session that comes of it.
pub mod Verified
use protonmail_go.Prelude.{ℕ, String, Option, none, some, ℤ}
use protonmail_go.Errors.{Error, wrapped}
use protonmail_go.Result.{Result, ok, err}
use protonmail_go.Http.{Bytes}
use protonmail_go.Client.{Session, Config}
use protonmail_go.Password.{Hashes, expand_hash}
use protonmail_go.Srp.Handshake.{
  Proofs, SrpCodec, SrpInputs, srp_inputs, generate_proofs, verify_server_proof,
}
use protonmail_go.Transport.{Act, Net, Envelope, Wire, continue, fail, pure, ◌>>=◌}
use protonmail_go.Endpoint.{submit}
use protonmail_go.Auth.{Auth, AuthInfo, AuthResp, AuthCodec, resp_auth, auth_info}

pub record AuthReq : Type 0 where
  pub username : String
  pub srp_session : String
  pub client_ephemeral : String
  pub client_proof : String

-- What Auth has beside the client: the encodings, the hashes, the random reader, and the fuel of its
-- loop. The modulus has 2048 bits.
pub record Login (W : Type 0) : Type 0 where
  pub codec : AuthCodec
  pub srp_codec : SrpCodec
  pub hashes : Hashes
  pub rand : ℕ → W → Result ℕ × W
  pub draws : ℕ
  pub encode_request : AuthReq → Result Bytes
  pub base64_encode : Bytes → String

module _ {W : Type 0} (fuel : ℕ) (wire : Wire) (cfg : Config W) (login : Login W) where
  in_world : Net W → Option (Result Proofs × W) → Option (Result Proofs × Net W)
  in_world net none = none
  in_world net (some (ok p, w)) = some (ok p, record net { world = w })
  in_world net (some (err e, w)) =
      some (err (wrapped "SRP failed during auth" e), record net { world = w })

  proofs_at : Result SrpInputs → Act W Proofs
  unfolding in_world
  proofs_at (err e) net = some (err (wrapped "SRP failed during auth" e), net)
  proofs_at (ok i) net = in_world net (
      generate_proofs (expand_hash login.hashes) 2048 login.rand login.draws i.modulus i.hashed
        i.server_ephemeral net.world)

  -- `srp`, with the message that Auth adds to its error
  srp : Bytes → AuthInfo → Act W Proofs
  unfolding proofs_at
  srp password info = proofs_at (
      srp_inputs login.srp_codec login.hashes password info.version info.modulus
        info.server_ephemeral info.salt)

  get_info : String → Option AuthInfo → Act W AuthInfo
  get_info username (some info) = pure info
  get_info username none = auth_info fuel wire cfg login.codec username

  -- The credentials are stored once the server's proof is verified.
  accept : AuthResp → Option Error → Act W Auth
  accept resp (some e) net = some (err e, net)
  accept resp none net =
      let auth = resp_auth login.codec.expiry resp in
      some (
        ok auth,
        record net {
          session = record net.session { uid = auth.uid; access_token = auth.access_token };
        },
      )

  request_of : String → AuthInfo → Proofs → AuthReq
  request_of username info p = record {
    username = username;
    srp_session = info.srp_session;
    client_ephemeral = login.base64_encode p.client_ephemeral;
    client_proof = login.base64_encode p.client_proof;
  }

  exchange : String → AuthInfo → Proofs → Act W Auth
  unfolding accept request_of
  exchange username info p = do
    resp ←
        submit fuel wire cfg "POST" "/auth" (login.encode_request (request_of username info p))
          login.codec.decode_auth
    accept resp (verify_server_proof login.srp_codec.base64_decode p resp.server_proof)

  -- `(*Client).Auth`, at the bytes of the password
  unfoldable pub auth : String → Bytes → Option AuthInfo → Act W Auth
  unfolding get_info srp exchange
  auth username password info = do
    info' ← get_info username info
    p ← srp password info'
    exchange username info' p
