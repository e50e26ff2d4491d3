-- ===== src/Example/Backups/Matching.antt =====
-- Which public key stands beside which backup code.
use universal_login_sdk.Prelude.{
  ℕ, zero, suc, ◌+◌, ◌≡◌, sym, subst, inl, inr, ◌⊎◌, List, [], ◌∷◌, ◌++◌, Text, Result, ok, err,
  Result-cases, to_lower_case, length, length-append, arith,
}
use universal_login_sdk.Example.Backups.{
  BackupService, generate_backup_code, generate_each, generate_backup_codes, dashed,
  clear_backup_codes, new_service,
}

module _ (words : ℕ → Text) (generate_wallet : Text → Text → Result Text Text) (name : Text) where
  -- Each code has the address of its wallet at its place.
  abbrev pub AreMatched : List Text → List Text → Type 0
  AreMatched [] [] = Unit
  AreMatched [] (k ∷ ks) = ⊥
  AreMatched (c ∷ cs) [] = ⊥
  AreMatched (c ∷ cs) (k ∷ ks) = (generate_wallet name c ≡ ok k) × AreMatched cs ks

  AreMatched-append :
      (cs ks : List Text) (c k : Text)
      → AreMatched cs ks
      → generate_wallet name c ≡ ok k
      → AreMatched (cs ++ c ∷ []) (ks ++ k ∷ [])
  AreMatched-append [] [] c k m e = (e, tt)
  AreMatched-append [] (k' ∷ ks) c k m e = elim m [ ]
  AreMatched-append (c' ∷ cs) [] c k m e = elim m [ ]
  AreMatched-append (c' ∷ cs) (k' ∷ ks) c k (m, ms) e = (m, AreMatched-append cs ks c k ms e)

  -- The code that is made next.
  abbrev code_of : BackupService → Text
  code_of s =
      to_lower_case (dashed (words s.drawn)) ++ b'-' ∷ to_lower_case (dashed (words (suc s.drawn)))

  abbrev skipped : BackupService → BackupService
  skipped s = record s { drawn = suc (suc s.drawn) }

  -- A code is made, and kept with the address of its wallet, or its wallet cannot be made.
  one_cases :
      (s : BackupService)
      → ((x : Text) × (generate_wallet name (code_of s) ≡ err x)
          × (generate_backup_code words generate_wallet name s ≡ (err x, skipped s)))
        ⊎ ((k : Text) × (generate_wallet name (code_of s) ≡ ok k)
            × (generate_backup_code words generate_wallet name s ≡ (
              ok tt,
              record (skipped s) {
                backup_codes = s.backup_codes ++ code_of s ∷ [];
                public_keys = s.public_keys ++ k ∷ [];
              },
            )))
  unfolding generate_backup_code
  one_cases s = elim (Result-cases (generate_wallet name (code_of s))) [
    | inl (x, e) ↦ inl (x, e, ground arith)
    | inr (k, e) ↦ inr (k, e, ground arith)
  ]

  each_stop :
      (n : ℕ) (s : BackupService) (x : Text)
      → generate_backup_code words generate_wallet name s ≡ (err x, skipped s)
      → generate_each words generate_wallet name (suc n) s ≡ (err x, skipped s)
  unfolding generate_each
  each_stop n s x e = ground arith

  each_on :
      (n : ℕ) (s t : BackupService)
      → generate_backup_code words generate_wallet name s ≡ (ok tt, t)
      → generate_each words generate_wallet name (suc n) s
        ≡ generate_each words generate_wallet name n t
  unfolding generate_each
  each_on n s t e = ground arith

  -- How a number of codes is made: all of them, or fewer, with an exception.
  abbrev Made : ℕ → BackupService → Result Text (Unit {0}) × BackupService → Type 0
  Made n s (ok _, t) =
      AreMatched t.backup_codes t.public_keys × (length t.backup_codes ≡ length s.backup_codes + n)
  Made n s (err _, t) =
      AreMatched t.backup_codes t.public_keys
      × ((c : Text) × (x : Text) × (generate_wallet name c ≡ err x))

  more :
      (n : ℕ) (s t : BackupService) (r : Result Text (Unit {0}) × BackupService)
      → length t.backup_codes ≡ suc (length s.backup_codes)
      → Made n t r
      → Made (suc n) s r
  more n s t (ok u, w) e (m, h) = (m, omega (arith, e, h))
  more n s t (err x, w) e (m, h) = (m, h)

  each-Made :
      (n : ℕ) (s : BackupService)
      → AreMatched s.backup_codes s.public_keys
      → Made n s (generate_each words generate_wallet name n s)
  unfolding generate_each
  each-Made zero s m = (m, omega arith)
  each-Made (suc n) s m = elim (one_cases s) [
    | inl (x, e, one) ↦ subst (Made (suc n) s) (sym (each_stop n s x one)) (m, (code_of s, x, e))
    | inr (k, e, one) ↦
        let t : BackupService = record (skipped s) {
          backup_codes = s.backup_codes ++ code_of s ∷ [];
          public_keys = s.public_keys ++ k ∷ [];
        } in
        let longer = length-append {0} s.backup_codes (code_of s ∷ []) in
        subst (Made (suc n) s) (sym (each_on n s t one)) (
          more n s t (generate_each words generate_wallet name n t) (omega (arith, longer))
            (each-Made n t (AreMatched-append s.backup_codes s.public_keys (code_of s) k m e)))
  ]

  Made-AreMatched :
      (n : ℕ) (s : BackupService) (r : Result Text (Unit {0}) × BackupService)
      → Made n s r
      → AreMatched r.1.backup_codes r.1.public_keys
  Made-AreMatched n s (ok u, t) (m, h) = m
  Made-AreMatched n s (err x, t) (m, h) = m

  generate_end :
      (n : ℕ) (s : BackupService)
      → (generate_backup_codes words generate_wallet name n s).1
        ≡ (generate_each words generate_wallet name n s).1
  unfolding generate_backup_codes
  generate_end n s = elim (Result-cases (generate_each words generate_wallet name n s).0) [
    | inl (x, e) ↦ ground arith
    | inr (u, e) ↦ ground arith
  ]

  generate-AreMatched :
      (n : ℕ) (s : BackupService)
      → AreMatched s.backup_codes s.public_keys
      → AreMatched
          (generate_backup_codes words generate_wallet name n s).1.backup_codes
          (generate_backup_codes words generate_wallet name n s).1.public_keys
  generate-AreMatched n s m =
      subst (λ t. AreMatched t.backup_codes t.public_keys) (sym (generate_end n s))
        (Made-AreMatched n s (generate_each words generate_wallet name n s) (each-Made n s m))

-- The calls of the service: codes are made for the wallet's name, or cleared.
pub data Call : Type 0 where
  generate : ℕ → Call
  clear : Call

-- What the service has after calls, whether they returned or threw.
module _ (words : ℕ → Text) (generate_wallet : Text → Text → Result Text Text) (name : Text) where
  pub after : Call → BackupService → BackupService
  after (generate n) s = (generate_backup_codes words generate_wallet name n s).1
  after clear s = clear_backup_codes s

  pub after_all : List Call → BackupService → BackupService
  unfolding after
  after_all [] s = s
  after_all (c ∷ cs) s = after_all cs (after c s)

  after-AreMatched :
      (c : Call) (s : BackupService)
      → AreMatched words generate_wallet name s.backup_codes s.public_keys
      → AreMatched words generate_wallet name (after c s).backup_codes (after c s).public_keys
  unfolding after clear_backup_codes
  after-AreMatched (generate n) s m = generate-AreMatched words generate_wallet name n s m
  after-AreMatched clear s m = tt

  after_all-from :
      (cs : List Call) (s : BackupService)
      → AreMatched words generate_wallet name s.backup_codes s.public_keys
      → AreMatched words generate_wallet name
          (after_all cs s).backup_codes
          (after_all cs s).public_keys
  unfolding after_all
  after_all-from [] s m = m
  after_all-from (c ∷ cs) s m = after_all-from cs (after c s) (after-AreMatched c s m)

  -- Whatever codes are made and cleared, and whichever wallets cannot be made, each backup code has the
  -- address of its own wallet at its place among the public keys, and there are no other keys.
  pub after_all-AreMatched :
      (cs : List Call)
      → AreMatched words generate_wallet name
          (after_all cs new_service).backup_codes
          (after_all cs new_service).public_keys
  after_all-AreMatched cs = after_all-from cs new_service tt
