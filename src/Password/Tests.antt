-- ===== src/Password/Tests.antt =====
-- The password functions at toy hashes, and the theorems about them there.
use protonmail_go.Prelude.{◌≡◌, refl, [], ◌∷◌, ◌++◌, replicate, length, ap, sym}
use protonmail_go.Result.{ok, ok-injective}
use protonmail_go.Http.{Bytes}
use protonmail_go.Password.{Hashes, replace_first, bcrypt_2a, bcrypt_2y}
use protonmail_go.Password.Sizes.{GivesDigests, GivesSixty}

abbrev digest : Bytes
digest = replicate 64 1

abbrev sixty : Bytes
sixty = bcrypt_2a ++ replicate 56 3

abbrev toy : Hashes
toy = record { bcrypt = λ password salt. ok sixty; sha512 = λ b. digest }

toy-GivesDigests : GivesDigests toy
toy-GivesDigests b = refl

toy-GivesSixty : GivesSixty toy
toy-GivesSixty password salt b e = ap length (sym (ok-injective e))

prefix_runs : replace_first bcrypt_2a bcrypt_2y (bcrypt_2a ++ 3 ∷ []) ≡ bcrypt_2y ++ 3 ∷ []
unfolding replace_first
prefix_runs = refl
