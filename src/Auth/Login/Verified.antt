-- ===== src/Auth/Login/Verified.antt =====
-- Auth stores credentials only from a server whose proof is right.
pub mod Tokens
use protonmail_go.Prelude.{ℕ, String, ◌≡◌, refl, ap, subst, Option, none, some}
use protonmail_go.Errors.{Error}
use protonmail_go.Result.{Result, ok, err}
use protonmail_go.Http.{Bytes}
use protonmail_go.Client.{Session, Config}
use protonmail_go.Password.{expand_hash}
use protonmail_go.Srp.Handshake.{
  Proofs, SrpInputs, srp_inputs, generate_proofs, verify_server_proof,
}
use protonmail_go.Transport.{Act, Net, Wire, continue, Envelope}
use protonmail_go.Transport.Exchange.Sessions.{KeepsSession}
use protonmail_go.Transport.Json.Decoding.{Decodes, Yields}
use protonmail_go.Endpoint.{submit}
use protonmail_go.Endpoint.Requests.{submit-Yields}
use protonmail_go.Auth.{Auth, AuthInfo, AuthResp, resp_auth, auth_info}
use protonmail_go.Auth.SessionChanges.{submit-KeepsSession}
use protonmail_go.Auth.Login.{
  Login, auth, exchange, accept, srp, proofs_at, in_world, get_info, request_of,
}

module _ {W : Type 0} (login : Login W) where
  -- The info of the handshake: the one that was given, or one that the server gave.
  abbrev pub IsInfo : Option AuthInfo → AuthInfo → Type 0
  IsInfo (some given) info = given ≡ info
  IsInfo none info = Decodes login.codec.decode_auth_info info

  -- Proofs that the handshake makes of the password and the info.
  abbrev pub IsProof : Bytes → AuthInfo → Proofs → Type 0
  IsProof password info p =
      (i : SrpInputs) × (w w' : W) × (srp_inputs login.srp_codec login.hashes password info.version
          info.modulus info.server_ephemeral info.salt
        ≡ ok i)
      × (generate_proofs (expand_hash login.hashes) 2048 login.rand login.draws i.modulus i.hashed
            i.server_ephemeral w
          ≡ some (ok p, w'))

  -- Credentials that a server gave together with the proof that belongs to the password.
  abbrev pub IsEarned : Bytes → Option AuthInfo → Auth → Type 0
  IsEarned password given a =
      (info : AuthInfo) × (p : Proofs) × (resp : AuthResp) × IsInfo given info
      × IsProof password info p
      × Decodes login.codec.decode_auth resp
      × (verify_server_proof login.srp_codec.base64_decode p resp.server_proof ≡ none)
      × (a ≡ resp_auth login.codec.expiry resp)

  -- A success is earned, and stores its UID and token; a failure leaves the session as it was.
  abbrev pub Verified : Bytes → Option AuthInfo → Session → Option (Result Auth × Net W) → Type 0
  Verified password given s none = Unit
  Verified password given s (some (ok a, net)) =
      IsEarned password given a
      × (net.session ≡ record s { uid = a.uid; access_token = a.access_token })
  Verified password given s (some (err e, net)) = net.session ≡ s

  module _ (fuel : ℕ) (wire : Wire) (cfg : Config W) where
    in_world-Yields :
        (Q : Proofs → Type 0) (net : Net W) (o : Option (Result Proofs × W))
        → ((p : Proofs) (w : W) → o ≡ some (ok p, w) → Q p)
        → Yields Q (in_world fuel wire cfg login net o)
    unfolding in_world
    in_world-Yields Q net none k = tt
    in_world-Yields Q net (some (ok p, w)) k = k p w refl
    in_world-Yields Q net (some (err e, w)) k = tt

    proofs_at-Yields :
        (password : Bytes) (info : AuthInfo) (r : Result SrpInputs) (net : Net W)
        → srp_inputs login.srp_codec login.hashes password info.version info.modulus
            info.server_ephemeral info.salt
          ≡ r
        → Yields (IsProof password info) (proofs_at fuel wire cfg login r net)
    unfolding proofs_at
    proofs_at-Yields password info (err e) net h = tt
    proofs_at-Yields password info (ok i) net h =
        in_world-Yields (IsProof password info) net _ (λ p w e. (i, net.world, w, h, e))

    srp-Yields :
        (password : Bytes) (info : AuthInfo) (net : Net W)
        → Yields (IsProof password info) (srp fuel wire cfg login password info net)
    unfolding srp
    srp-Yields password info net = proofs_at-Yields password info _ net refl

  module _ (fuel : ℕ) (wire : Wire) (cfg : Config W) (plain : cfg.reauth ≡ none) (s : Session)
      (password : Bytes) (given : Option AuthInfo) where
    continue-Verified :
        {A : Type 0} (Q : A → Type 0) (o : Option (Result A × Net W)) (f : A → Act W Auth)
        → Yields Q o
        → KeepsSession s o
        → ((a : A) (net : Net W) → Q a → net.session ≡ s → Verified password given s (f a net))
        → Verified password given s (continue o f)
    continue-Verified Q none f y h k = tt
    continue-Verified Q (some (ok a, net)) f y h k = k a net y h
    continue-Verified Q (some (err e, net)) f y h k = h

    submit-keeps :
        {A : Type 0} (path : String) (encoded : Result Bytes) (decode : Bytes → Result (Envelope A))
        (net : Net W)
        → net.session ≡ s
        → KeepsSession s (submit fuel wire cfg "POST" path encoded decode net)
    submit-keeps path encoded decode net h =
        subst (λ t. KeepsSession t (submit fuel wire cfg "POST" path encoded decode net)) h
          (submit-KeepsSession fuel wire cfg "POST" path encoded decode net plain)

    accept-Verified :
        (info : AuthInfo) (p : Proofs) (resp : AuthResp) (o : Option Error) (net : Net W)
        → IsInfo given info
        → IsProof password info p
        → Decodes login.codec.decode_auth resp
        → verify_server_proof login.srp_codec.base64_decode p resp.server_proof ≡ o
        → net.session ≡ s
        → Verified password given s (accept fuel wire cfg login resp o net)
    unfolding accept
    accept-Verified info p resp (some e) net i q d v h = h
    accept-Verified info p resp none net i q d v h = (
      (info, p, resp, i, q, d, v, refl),
      ap
          (λ (t : Session). record t {
            uid = (resp_auth login.codec.expiry resp).uid;
            access_token = (resp_auth login.codec.expiry resp).access_token;
          })
          h,
    )

    exchange-Verified :
        (username : String) (info : AuthInfo) (p : Proofs) (net : Net W)
        → IsInfo given info
        → IsProof password info p
        → net.session ≡ s
        → Verified password given s (exchange fuel wire cfg login username info p net)
    unfolding exchange
    exchange-Verified username info p net i q h =
        let encoded = login.encode_request (request_of fuel wire cfg login username info p) in
        continue-Verified (Decodes login.codec.decode_auth)
          (submit fuel wire cfg "POST" "/auth" encoded login.codec.decode_auth net) _
          (submit-Yields fuel wire cfg "POST" "/auth" encoded login.codec.decode_auth net)
          (submit-keeps "/auth" encoded login.codec.decode_auth net h)
          (λ resp m d e. accept-Verified info p resp _ m i q d refl e)

    in_world-KeepsSession :
        (net : Net W) (o : Option (Result Proofs × W))
        → net.session ≡ s
        → KeepsSession s (in_world fuel wire cfg login net o)
    unfolding in_world
    in_world-KeepsSession net none h = tt
    in_world-KeepsSession net (some (ok p, w)) h = h
    in_world-KeepsSession net (some (err e, w)) h = h

    proofs_at-KeepsSession :
        (r : Result SrpInputs) (net : Net W)
        → net.session ≡ s
        → KeepsSession s (proofs_at fuel wire cfg login r net)
    unfolding proofs_at
    proofs_at-KeepsSession (err e) net h = h
    proofs_at-KeepsSession (ok i) net h = in_world-KeepsSession net _ h

    then_proofs :
        (username : String) (info : AuthInfo) (net : Net W)
        → IsInfo given info
        → net.session ≡ s
        → Verified password given s (
            continue
              (srp fuel wire cfg login password info net)
              (exchange fuel wire cfg login username info))
    unfolding srp
    then_proofs username info net i h =
        continue-Verified (IsProof password info) (srp fuel wire cfg login password info net) _
          (srp-Yields fuel wire cfg password info net) (proofs_at-KeepsSession _ net h)
          (λ p m q e. exchange-Verified username info p m i q e)

  -- Without a callback of WithReAuth: Auth stores a UID and a token only if they were decoded from a
  -- response whose server proof is the one that generateProofs makes of the password and the given
  -- or fetched info, and it leaves the session as it was when it fails.
  pub auth-Verified :
      (fuel : ℕ) (wire : Wire) (cfg : Config W) (username : String) (password : Bytes)
      (info : Option AuthInfo) (net : Net W)
      → cfg.reauth ≡ none
      → Verified password info net.session (auth fuel wire cfg login username password info net)
  unfolding auth get_info auth_info
  auth-Verified fuel wire cfg username password (some info) net plain =
      then_proofs fuel wire cfg plain net.session password (some info) username info net refl refl
  auth-Verified fuel wire cfg username password none net plain =
      continue-Verified fuel wire cfg plain net.session password none
        (Decodes login.codec.decode_auth_info)
        (submit fuel wire cfg "POST" "/auth/info" (login.codec.encode_username username)
          login.codec.decode_auth_info net)
        _ (submit-Yields fuel wire cfg "POST" "/auth/info" _ login.codec.decode_auth_info net)
        (submit-keeps fuel wire cfg plain net.session password none "/auth/info" _
          login.codec.decode_auth_info net refl)
        (λ i m d e. then_proofs fuel wire cfg plain net.session password none username i m d e)
