-- ===== src/Auth/Login/Verified/Tokens.antt =====
-- Auth gives the session granted credentials only.
use protonmail_go.Prelude.{ℕ, String, refl, ◌≡◌, Option, none, some}
use protonmail_go.Errors.{Error}
use protonmail_go.Result.{Result, ok, err}
use protonmail_go.Http.{Bytes}
use protonmail_go.Client.{Config}
use protonmail_go.Srp.Handshake.{Proofs, SrpInputs, verify_server_proof}
use protonmail_go.Transport.{Net, Wire, continue}
use protonmail_go.Transport.Exchange.Tokens.{Grants, Good, GoesWell, Renews}
use protonmail_go.Transport.Json.Decoding.{Decodes, Yields}
use protonmail_go.Transport.Json.Tokens.{bind-GoesWell}
use protonmail_go.Endpoint.{submit}
use protonmail_go.Endpoint.Requests.{submit-Yields}
use protonmail_go.Endpoint.Tokens.{submit-GoesWell}
use protonmail_go.Auth.{Auth, AuthInfo, AuthResp, auth_info}
use protonmail_go.Auth.Login.{
  Login, auth, exchange, accept, srp, proofs_at, in_world, get_info, request_of,
}
use protonmail_go.Auth.Login.Verified.{IsInfo, IsProof, IsEarned, srp-Yields}

module _ (G : Grants) {W : Type 0} (login : Login W) (fuel : ℕ) (wire : Wire) (cfg : Config W)
    (renews : Renews G cfg.reauth) (password : Bytes) (given : Option AuthInfo)
    (earned : (a : Auth) → IsEarned login password given a → G a.uid a.access_token) where
  accept-GoesWell :
      (info : AuthInfo) (p : Proofs) (resp : AuthResp) (o : Option Error) (net : Net W)
      → IsInfo login given info
      → IsProof login password info p
      → Decodes login.codec.decode_auth resp
      → verify_server_proof login.srp_codec.base64_decode p resp.server_proof ≡ o
      → Good G net
      → GoesWell G (accept fuel wire cfg login resp o net)
  unfolding accept
  accept-GoesWell info p resp (some e) net i q d v g = g
  accept-GoesWell info p resp none net i q d v g =
      ((λ c. earned _ (info, p, resp, i, q, d, v, refl)), g.1)

  exchange-GoesWell :
      (username : String) (info : AuthInfo) (p : Proofs) (net : Net W)
      → IsInfo login given info
      → IsProof login password info p
      → Good G net
      → GoesWell G (exchange fuel wire cfg login username info p net)
  unfolding exchange
  exchange-GoesWell username info p net i q g =
      let encoded = login.encode_request (request_of fuel wire cfg login username info p) in
      bind-GoesWell G (Decodes login.codec.decode_auth)
        (submit fuel wire cfg "POST" "/auth" encoded login.codec.decode_auth net) _
        (submit-Yields fuel wire cfg "POST" "/auth" encoded login.codec.decode_auth net)
        (submit-GoesWell G fuel wire cfg renews "POST" "/auth" login.codec.decode_auth net g
          encoded)
        (λ resp m d h. accept-GoesWell info p resp _ m i q d refl h)

  in_world-GoesWell :
      (net : Net W) (o : Option (Result Proofs × W))
      → Good G net
      → GoesWell G (in_world fuel wire cfg login net o)
  unfolding in_world
  in_world-GoesWell net none g = tt
  in_world-GoesWell net (some (ok p, w)) g = g
  in_world-GoesWell net (some (err e, w)) g = g

  proofs_at-GoesWell :
      (r : Result SrpInputs) (net : Net W)
      → Good G net
      → GoesWell G (proofs_at fuel wire cfg login r net)
  unfolding proofs_at
  proofs_at-GoesWell (err e) net g = g
  proofs_at-GoesWell (ok i) net g = in_world-GoesWell net _ g

  then_proofs-GoesWell :
      (username : String) (info : AuthInfo) (net : Net W)
      → IsInfo login given info
      → Good G net
      → GoesWell G (
          continue
            (srp fuel wire cfg login password info net)
            (exchange fuel wire cfg login username info))
  unfolding srp
  then_proofs-GoesWell username info net i g =
      bind-GoesWell G (IsProof login password info) (srp fuel wire cfg login password info net) _
        (srp-Yields login fuel wire cfg password info net) (proofs_at-GoesWell _ net g)
        (λ p m q h. exchange-GoesWell username info p m i q h)

  get_info-Yields :
      (username : String) (info : Option AuthInfo) (net : Net W)
      → Yields (IsInfo login info) (get_info fuel wire cfg login username info net)
  unfolding get_info auth_info
  get_info-Yields username (some info) net = refl
  get_info-Yields username none net =
      submit-Yields fuel wire cfg "POST" "/auth/info" _ login.codec.decode_auth_info net

  get_info-GoesWell :
      (username : String) (info : Option AuthInfo) (net : Net W)
      → Good G net
      → GoesWell G (get_info fuel wire cfg login username info net)
  unfolding get_info auth_info
  get_info-GoesWell username (some info) net g = g
  get_info-GoesWell username none net g =
      submit-GoesWell G fuel wire cfg renews "POST" "/auth/info" login.codec.decode_auth_info net g
        _

  -- If earned credentials are granted ones, Auth goes well.
  pub auth-GoesWell :
      (username : String) (net : Net W)
      → Good G net
      → GoesWell G (auth fuel wire cfg login username password given net)
  unfolding auth
  auth-GoesWell username net g =
      bind-GoesWell G (IsInfo login given) (get_info fuel wire cfg login username given net) _
        (get_info-Yields username given net) (get_info-GoesWell username given net g)
        (λ info m i h. then_proofs-GoesWell username info m i h)
