-- ===== src/Srp/Handshake.antt =====
-- generateProofs, VerifyServerProof, decodeModulus and srp of srp.go.
pub mod Drawing
pub mod Ending
use protonmail_go.Prelude.{
  ℕ, zero, suc, ◌+◌, ◌-◌, ◌*◌, ◌/◌, ◌%◌, ◌^◌, String, Bool, true, false, ◌||◌, ◌&&◌, not, Option,
  none, some, [], ◌∷◌, ◌++◌, ℤ, leb, ltb, eqb, if◌then◌else◌,
}
use protonmail_go.Errors.{Error, other, wrapped}
use protonmail_go.Result.{Result, ok, err, ◌>>=◌}
use protonmail_go.Http.{Bytes}
use protonmail_go.Password.{Hashes, hash_password}
use protonmail_go.Srp.Integers.{itoa, atoi}

pub record Proofs : Type 0 where
  pub client_ephemeral : Bytes
  pub client_proof : Bytes
  pub expected_server_proof : Bytes

-- The parameters that the checks have let through.
pub record Parameters : Type 0 where
  pub multiplier : ℕ
  pub modulus : ℕ
  pub hashed : ℕ
  pub server_ephemeral : ℕ

abbrev pub generator : ℕ
generator = 2

-- `big.Int.BitLen`: a number has no more bits than it counts.
bit_len_from : ℕ → ℕ → ℕ
bit_len_from zero n = 0
bit_len_from (suc fuel) n =
    let higher = bit_len_from fuel (n / 2) in if eqb n 0 then 0 else suc higher

unfoldable pub bit_len : ℕ → ℕ
unfolding bit_len_from
bit_len n = bit_len_from n n

-- `n.Cmp(1) <= 0 || n.Cmp(modulusMinusOne) >= 0`
abbrev pub out_of_bounds : ℕ → ℕ → Bool
out_of_bounds n modulus = leb n 1 || leb (modulus - 1) n

module _ (hash : Bytes → Bytes) (l : ℕ) where
  checked : ℕ → ℕ → ℕ → ℕ → Result Parameters
  checked multiplier modulus hashed server_ephemeral =
      if not (eqb (bit_len modulus) l)
      then err (other "SRP modulus has incorrect size")
      else if out_of_bounds (multiplier % modulus) modulus
      then err (other "SRP multiplier is out of bounds")
      else if out_of_bounds generator modulus
      then err (other "SRP generator is out of bounds")
      else if out_of_bounds server_ephemeral modulus
      then err (other "SRP server ephemeral is out of bounds")
      else ok (record {
        multiplier = multiplier % modulus;
        modulus = modulus;
        hashed = hashed;
        server_ephemeral = server_ephemeral;
      })

  -- The part of generateProofs before a secret is drawn.
  unfoldable pub parameters : Bytes → Bytes → Bytes → Result Parameters
  unfolding checked
  parameters modulus_bytes hashed_bytes server_ephemeral_bytes = do
    g ← itoa generator l
    checked (atoi (hash (g ++ modulus_bytes))) (atoi modulus_bytes) (atoi hashed_bytes)
        (atoi server_ephemeral_bytes)

  -- `u`, the hash of both ephemerals
  unfoldable pub scrambling_param : Parameters → ℕ → Result ℕ
  scrambling_param p client_ephemeral = do
    a ← itoa client_ephemeral l
    b ← itoa p.server_ephemeral l
    ok (atoi (hash (a ++ b)))

  -- The session key of the client; a negative difference is raised by the modulus.
  unfoldable pub shared_session : Parameters → ℕ → ℕ → ℕ
  shared_session p client_secret u =
      let masked = (generator ^ p.hashed % p.modulus) * p.multiplier % p.modulus in
      let subtracted =
        if ltb p.server_ephemeral masked
        then p.server_ephemeral + p.modulus - masked
        else p.server_ephemeral - masked in
      subtracted ^ ((u * p.hashed + client_secret) % (p.modulus - 1)) % p.modulus

  pub proofs_of : Parameters → ℕ → ℕ → Result Proofs
  proofs_of p client_ephemeral session = do
    a ← itoa client_ephemeral l
    b ← itoa p.server_ephemeral l
    s ← itoa session l
    let client_proof = hash (a ++ b ++ s)
    ok (record {
      client_ephemeral = a;
      client_proof = client_proof;
      expected_server_proof = hash (a ++ client_proof ++ s);
    })

  -- The loop that draws a client secret, on fuel, with the random reader as a function of the state
  -- `W` of the outside world: `rand max` is `rand.Int`.
  module _ {W : Type 0} (rand : ℕ → W → Result ℕ × W) where
    with_scrambling :
        (W → Option (Result Proofs × W))
        → Parameters
        → ℕ
        → W
        → Result ℕ
        → Option (Result Proofs × W)
    with_scrambling again p secret w (err e) = some (err e, w)
    with_scrambling again p secret w (ok u) =
        if eqb u 0
        then again w
        else some (proofs_of p (generator ^ secret % p.modulus) (shared_session p secret u), w)

    drawn :
        (W → Option (Result Proofs × W)) → Parameters → Result ℕ × W → Option (Result Proofs × W)
    unfolding with_scrambling scrambling_param
    drawn again p (err e, w) = some (err e, w)
    drawn again p (ok secret, w) =
        if leb secret (l * 2)
        then again w
        else with_scrambling again p secret w (scrambling_param p (generator ^ secret % p.modulus))

    unfoldable pub draw : ℕ → Parameters → W → Option (Result Proofs × W)
    unfolding drawn proofs_of
    draw zero p w = none
    draw (suc fuel) p w = drawn (draw fuel p) p (rand (p.modulus - 1) w)

    from_parameters : ℕ → Result Parameters → W → Option (Result Proofs × W)
    unfolding draw
    from_parameters fuel (err e) w = some (err e, w)
    from_parameters fuel (ok p) w = draw fuel p w

    unfoldable pub generate_proofs : ℕ → Bytes → Bytes → Bytes → W → Option (Result Proofs × W)
    unfolding parameters from_parameters
    generate_proofs fuel modulus_bytes hashed_bytes server_ephemeral_bytes w =
        from_parameters fuel (parameters modulus_bytes hashed_bytes server_ephemeral_bytes) w

-- `subtle.ConstantTimeCompare(a, b) == 1`
unfoldable pub same_bytes : Bytes → Bytes → Bool
same_bytes [] [] = true
same_bytes [] (y ∷ ys) = false
same_bytes (x ∷ xs) [] = false
same_bytes (x ∷ xs) (y ∷ ys) = eqb x y && same_bytes xs ys

compare_proof : Bytes → Result Bytes → Option Error
compare_proof expected (err e) = some (wrapped "malformed SRP server proof" e)
compare_proof expected (ok server_proof) =
    if same_bytes expected server_proof then none else some (other "invalid SRP server proof")

-- `(*proofs).VerifyServerProof`
unfoldable pub verify_server_proof : (String → Result Bytes) → Proofs → String → Option Error
unfolding compare_proof
verify_server_proof base64_decode p text =
    compare_proof p.expected_server_proof (base64_decode text)

-- What srp asks of go-crypto and base64: the signed text of a clear-signed block, by whether it is
-- one and whether its signature by the modulus key holds; and the decoding.
pub record SrpCodec : Type 0 where
  pub clearsign_decode : String → Option String
  pub check_modulus : String → Option Error
  pub base64_decode : String → Result Bytes

describe : {A : Type 0} → String → Result A → Result A
describe text (ok a) = ok a
describe text (err e) = err (wrapped text e)

decode_checked : SrpCodec → String → Option Error → Result Bytes
unfolding describe
decode_checked codec plaintext (some e) = err (wrapped "failed to check modulus signature" e)
decode_checked codec plaintext none =
    describe "malformed SRP modulus" (codec.base64_decode plaintext)

decode_block : SrpCodec → String → Option String → Result Bytes
unfolding decode_checked
decode_block codec msg none = err (other "invalid SRP modulus signed PGP block")
decode_block codec msg (some plaintext) = decode_checked codec plaintext (codec.check_modulus msg)

unfoldable pub decode_modulus : SrpCodec → String → Result Bytes
unfolding decode_block
decode_modulus codec msg = decode_block codec msg (codec.clearsign_decode msg)

-- What srp has computed before the proofs: the modulus, the hashed password, the server's ephemeral.
pub record SrpInputs : Type 0 where
  pub modulus : Bytes
  pub hashed : Bytes
  pub server_ephemeral : Bytes

-- `srp` up to generateProofs, of the password and the fields of an AuthInfo
unfoldable pub srp_inputs :
    SrpCodec → Hashes → Bytes → ℤ → String → String → String → Result SrpInputs
unfolding decode_modulus describe
srp_inputs codec hashes password version modulus_text ephemeral_text salt_text = do
  modulus ← decode_modulus codec modulus_text
  server_ephemeral ← describe "malformed SRP server ephemeral" (codec.base64_decode ephemeral_text)
  salt ← describe "malformed SRP salt" (codec.base64_decode salt_text)
  hashed ← hash_password hashes version password salt modulus
  ok (record { modulus = modulus; hashed = hashed; server_ephemeral = server_ephemeral })
