-- ===== src/Auth/Tests.antt =====
-- Sessions that Logout and Unlock leave at a server, and the theorems about them there.
use protonmail_go.Prelude.{refl, none, some, [], ◌∷◌}
use protonmail_go.Samples.{plain, net_at, wire, session}
use protonmail_go.Auth.{logout, unlock}
use protonmail_go.Auth.Login.{auth}
use protonmail_go.Auth.Login.Verified.{Verified, auth-Verified}
use protonmail_go.Auth.SessionChanges.{LeavesSession, Unlocks, logout-LeavesSession, unlock-Unlocks}
use protonmail_go.Auth.Samples.{login, codec, hashes, pgp, json, info, full_login}

logout-LeavesSession_example : LeavesSession none session (logout 1 wire plain codec (net_at 200))
logout-LeavesSession_example = logout-LeavesSession 1 wire plain codec (net_at 200)

unlock-Unlocks_example :
    Unlocks login session (unlock 1 wire plain json hashes pgp login [] (1 ∷ []) (net_at 200))
unlock-Unlocks_example =
    unlock-Unlocks 1 wire plain json hashes pgp login [] (1 ∷ []) (net_at 200) refl

auth-Verified_example :
    Verified full_login
      (1 ∷ [])
      (some info)
      session
      (auth 1 wire plain full_login "ann" (1 ∷ []) (some info) (net_at 200))
auth-Verified_example =
    auth-Verified full_login 1 wire plain "ann" (1 ∷ []) (some info) (net_at 200) refl
