-- ===== src/Accounts/BackupCodes/Tests.antt =====
-- Backup codes at concrete inputs, with SHA-256 and the upper case left out.
use fxtun_dev.Base.{◌≡◌, refl, [], ◌∷◌, List}
use fxtun_dev.Base.Bytes.{Bytes, codes}
use fxtun_dev.Accounts.BackupCodes.{hash_backup_code, hash_backup_codes}

abbrev plain : Bytes → Bytes
plain s = s

abbrev two : List Bytes
two = codes "ABCD" ∷ codes "EFGH" ∷ []

stored : hash_backup_codes plain plain two ≡ codes "sha256:ABCD" ∷ codes "sha256:EFGH" ∷ []
unfolding hash_backup_codes hash_backup_code
stored = refl
