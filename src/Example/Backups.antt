-- ===== src/Example/Backups.antt =====
-- BackupService.js of the example application: backup codes, and the public keys of the wallets that
-- they stand for. The words of a number and the wallet of a code are parameters, and what Math.random
-- draws is a sequence.
pub mod Matching
use universal_login_sdk.Prelude.{
  ℕ, zero, suc, Bool, true, false, ◌||◌, ◌&&◌, Option, List, [], ◌∷◌, ◌++◌, Text, codes, leb, eqb,
  map, to_lower_case, Result, ok, err, Exec, pure, gets, lift, modify, ◌>>=◌, ◌>>◌, if◌then◌else◌,
}

pub record BackupService : Type 0 where
  pub backup_codes : List Text
  pub public_keys : List Text
  -- how many numbers were drawn
  pub drawn : ℕ

abbrev pub Backing : Type 0 → Type 0
Backing A = Exec Text BackupService A

abbrev pub new_service : BackupService
new_service = record { backup_codes = []; public_keys = []; drawn = 0 }

unfoldable pub clear_backup_codes : BackupService → BackupService
clear_backup_codes s = record s { backup_codes = []; public_keys = [] }

-- `\s`, of the characters below U+1680
abbrev pub is_space : ℕ → Bool
is_space c = (leb 9 c && leb c 13) || (eqb c 32 || eqb c 160)

-- `.replace(/\s/g, '-')`
unfoldable pub dashed : Text → Text
dashed t = map (λ c. if is_space c then b'-' else c) t

-- `toWords(Math.floor(Math.random() * Math.pow(3456, 4)))` by how many numbers were drawn before, and
-- the address of the wallet that `generateWallet` makes of a name and a code.
module _ (words : ℕ → Text) (generate_wallet : Text → Text → Result Text Text) (name : Text) where
  -- `toWords(…).replace(…).toLowerCase()`
  unfoldable pub draw : Backing Text
  unfolding dashed
  draw s = (ok (to_lower_case (dashed (words s.drawn))), record s { drawn = suc s.drawn })

  -- The body of the loop of `generateBackupCodes`
  unfoldable pub generate_backup_code : Backing (Unit {0})
  unfolding draw
  generate_backup_code = do
    prefix ← draw
    suffix ← draw
    let backup_code = prefix ++ b'-' ∷ suffix
    address ← lift (generate_wallet name backup_code)
    modify (λ s. record s { backup_codes = s.backup_codes ++ backup_code ∷ [] })
    modify (λ s. record s { public_keys = s.public_keys ++ address ∷ [] })

  -- the loop of `generateBackupCodes`
  unfoldable pub generate_each : ℕ → Backing (Unit {0})
  unfolding generate_backup_code
  generate_each zero = pure tt
  generate_each (suc n) = generate_backup_code >> generate_each n

  -- `generateBackupCodes`
  unfoldable pub generate_backup_codes : ℕ → Backing (List Text × List Text)
  unfolding generate_each
  generate_backup_codes num_codes = do
    generate_each num_codes
    gets (λ s. (s.backup_codes, s.public_keys))
