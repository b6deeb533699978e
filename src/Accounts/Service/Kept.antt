-- ===== src/Accounts/Service/Kept.antt =====
-- The sessions of the accounts, as the theorems on refreshes expect them.
use fxtun_dev.Base.{ℕ, ◌≡◌, true, some, is_some, nat_eq}
use fxtun_dev.Base.Dict.{lookup}
use fxtun_dev.Accounts.Rows.{AuthSession, AccountDb}
use fxtun_dev.Accounts.Service.Rotation.{Ids}

-- Each session has its own id, below the next one, and belongs to a user that is there.
abbrev pub SessionInv : AccountDb → Type 0
SessionInv db =
    Ids db
    × ((k : ℕ) (s : AuthSession)
        → lookup k db.sessions ≡ some s
        → is_some (lookup s.user_id db.users) ≡ true)
