-- ===== src/Srp/Tests.antt =====
-- Three bytes reversed, and the theorem about them.
use protonmail_go.Prelude.{ℕ, some, inl, inr, ◌≡◌, refl, arith, [], ◌∷◌, ◌+◌, ◌*◌, ◌^◌, ◌%◌}
use protonmail_go.Result.{Result, ok}
use protonmail_go.Srp.Integers.{itoa, atoi}
use protonmail_go.Srp.Integers.RoundTrip.{RoundTrips, itoa-RoundTrips}
use protonmail_go.Srp.Handshake.{
  Proofs, Parameters, parameters, bit_len, scrambling_param, shared_session, draw, generate_proofs,
}
use protonmail_go.Srp.Handshake.Drawing.{IsAccepted, AreProofs, generate_proofs-AreProofs}
use protonmail_go.Srp.Handshake.Ending.{StopsWithin, HasEnded, draw-HasEnded}
use protonmail_go.Http.{Bytes}
use protonmail_go.Srp.Agreement.{verifier, server_session, shared_session-server_session}
use protonmail_go.Srp.{reverse}

reverse_runs : reverse (1 ∷ 2 ∷ 3 ∷ []) ≡ 3 ∷ 2 ∷ 1 ∷ []
unfolding reverse
reverse_runs = refl

itoa_runs : itoa 258 32 ≡ ok (2 ∷ 1 ∷ 0 ∷ 0 ∷ [])
unfolding itoa reverse
itoa_runs = refl

itoa-RoundTrips_example : RoundTrips 258 32 (itoa 258 32)
itoa-RoundTrips_example = itoa-RoundTrips 258 32

-- A client and a server that agree: the modulus is 23, the hashed password 3, the multiplier 4, the
-- client's secret 5, the server's secret 6 and the scrambling parameter 7.
abbrev small : Parameters
small = record {
  multiplier = 4;
  modulus = 23;
  hashed = 3;
  server_ephemeral = (4 * 2 ^ 3 + 2 ^ 6) % 23;
}

session_runs : shared_session (λ b. b) 8 small 5 7 ≡ ((2 ^ 5 % 23) * (2 ^ 3 % 23) ^ 7) ^ 6 % 23
unfolding shared_session
session_runs = refl

shared_session-server_session_example :
    shared_session (λ b. b) 8 small 5 7 ≡ server_session (2 ^ 5 % 23) (verifier 3 23) 7 6 23
shared_session-server_session_example =
    shared_session-server_session (λ b. b) 8 small 6 5 7 (omega arith) refl refl

-- A reader whose first secret is too small.
abbrev secrets : ℕ → ℕ → Result ℕ × ℕ
secrets max w = (ok (w * 10), w + 1)

abbrev constant_hash : Bytes → Bytes
constant_hash b = 5 ∷ []

abbrev drawn_proofs : Proofs
drawn_proofs = record {
  client_ephemeral = (2 ^ 20 % 251) ∷ [];
  client_proof = 5 ∷ [];
  expected_server_proof = 5 ∷ [];
}

proofs_run :
    generate_proofs constant_hash 8 secrets 3 (251 ∷ []) (3 ∷ []) (100 ∷ []) 1
    ≡ some (ok drawn_proofs, 3)
unfolding generate_proofs itoa atoi bit_len scrambling_param shared_session reverse
proofs_run = refl

abbrev small_parameters : Parameters
small_parameters = record { multiplier = 5; modulus = 251; hashed = 3; server_ephemeral = 100 }

generate_proofs-AreProofs_example :
    (p : Parameters) × (parameters constant_hash 8 (251 ∷ []) (3 ∷ []) (100 ∷ []) ≡ ok p)
    × IsAccepted constant_hash 8 p
    × AreProofs constant_hash 8 p drawn_proofs
generate_proofs-AreProofs_example =
    generate_proofs-AreProofs constant_hash 8 secrets 3 (251 ∷ []) (3 ∷ []) (100 ∷ []) 1 3
      drawn_proofs proofs_run

scrambled : scrambling_param constant_hash 8 small_parameters (2 ^ 20 % 251) ≡ ok 5
unfolding scrambling_param itoa atoi reverse
scrambled = refl

stops : StopsWithin constant_hash 8 secrets 2 small_parameters 1
stops = inr (inl (omega arith, rw scrambled (λ e. omega arith)))

draw-HasEnded_example :
    HasEnded constant_hash 8 secrets (draw constant_hash 8 secrets 2 small_parameters 1)
draw-HasEnded_example = draw-HasEnded constant_hash 8 secrets 2 small_parameters 1 stops
