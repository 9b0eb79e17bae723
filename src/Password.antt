-- ===== src/Password.antt =====
-- password.go: bcrypt and SHA-512 as the client composes them. The two hashes are arguments.
pub mod Sizes
mod Tests
use protonmail_go.Prelude.{
  ℕ, zero, suc, ◌+◌, Bool, true, false, ◌&&◌, ◌||◌, List, [], ◌∷◌, ◌++◌, ℤ, pos, eqb, eqb_ℤ, leb,
  length, if◌then◌else◌,
}
use protonmail_go.Errors.{other, panicked}
use protonmail_go.Result.{Result, ok, err, ◌>>=◌}
use protonmail_go.Http.{Bytes}

-- `bcrypt.GenerateFromPasswordAndSalt` at cost 10, of the password and the salt, and `sha512.Sum512`.
pub record Hashes : Type 0 where
  pub bcrypt : Bytes → Bytes → Result Bytes
  pub sha512 : Bytes → Bytes

abbrev pub bcrypt_2a : Bytes
bcrypt_2a = b'$' ∷ b'2' ∷ b'a' ∷ b'$' ∷ []

abbrev pub bcrypt_2y : Bytes
bcrypt_2y = b'$' ∷ b'2' ∷ b'y' ∷ b'$' ∷ []

abbrev pub starts_with : Bytes → Bytes → Bool
starts_with [] b = true
starts_with (x ∷ xs) [] = false
starts_with (x ∷ xs) (y ∷ ys) = eqb x y && starts_with xs ys

abbrev pub drop : ℕ → Bytes → Bytes
drop zero b = b
drop (suc n) [] = []
drop (suc n) (x ∷ xs) = drop n xs

-- `bytes.Replace(b, old, new, 1)` at an `old` that is not empty
unfoldable pub replace_first : Bytes → Bytes → Bytes → Bytes
replace_first old new [] = []
replace_first old new (x ∷ xs) =
    let rest = replace_first old new xs in
    if starts_with old (x ∷ xs) then new ++ drop (length old) (x ∷ xs) else x ∷ rest

unfoldable pub hash_bcrypt : Hashes → Bytes → Bytes → Result Bytes
unfolding replace_first
hash_bcrypt hashes password salt = do
  hashed ← hashes.bcrypt password salt
  ok (replace_first bcrypt_2a bcrypt_2y hashed)

unfoldable pub expand_hash : Hashes → Bytes → Bytes
expand_hash hashes b =
    hashes.sha512 (b ++ 0 ∷ [])
    ++ hashes.sha512 (b ++ 1 ∷ [])
    ++ hashes.sha512 (b ++ 2 ∷ [])
    ++ hashes.sha512 (b ++ 3 ∷ [])

abbrev pub proton_suffix : Bytes
proton_suffix = b'p' ∷ b'r' ∷ b'o' ∷ b't' ∷ b'o' ∷ b'n' ∷ []

-- `hashPassword` of the version, the password, the salt and the modulus
unfoldable pub hash_password : Hashes → ℤ → Bytes → Bytes → Bytes → Result Bytes
unfolding hash_bcrypt expand_hash
hash_password hashes version password salt modulus =
    if eqb_ℤ version (pos 3) || eqb_ℤ version (pos 4)
    then (do
      hashed ← hash_bcrypt hashes password (salt ++ proton_suffix)
      ok (expand_hash hashes (hashed ++ modulus)))
    else err (other "unsupported auth version")

-- `hashed[29:]`, which panics if there are fewer bytes
without_prefix : Bytes → Result Bytes
without_prefix hashed =
    if leb 29 (length hashed)
    then ok (drop 29 hashed)
    else err (panicked "slice bounds out of range")

unfoldable pub compute_key_password : Hashes → Bytes → Bytes → Result Bytes
unfolding hash_bcrypt without_prefix
compute_key_password hashes password salt = hash_bcrypt hashes password salt >>= without_prefix
