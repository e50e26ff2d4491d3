-- ===== src/Tests/Shared.antt =====
-- The commons, the calls of the wallet contract, errors and authorisations on concrete values.
use universal_login_sdk.Commons.Ethers.{Ethers}
use universal_login_sdk.Commons.Cosigning.{
  Wallets, calculate_message_signatures, calculate_message_signatures_throws,
}
use universal_login_sdk.Prelude.{
  if◌then◌else◌, eqb, ◌≡◌, refl, List, [], ◌∷◌, ◌++◌, Text, codes, ok, err, length, drop, ◌+◌, ◌*◌,
  arith, ◌≢◌,
}
use universal_login_sdk.Commons.Signatures.{
  concatenate_signatures, IsSignature, pieces, concatenate_signatures-pieces,
}
use universal_login_sdk.Relayer.Database.{AuthorisationRow, DeviceInfo, Database}
use universal_login_sdk.Relayer.PendingStore.{CollectedSignatureKeyPair}
use universal_login_sdk.Relayer.Authorisation.{AuthorisationRequest}
use universal_login_sdk.Tests.Samples.{ethers, message_a, signature_a, signature_b, empty}

signed_a : IsSignature signature_a
signed_a = record { digits = drop 2 signature_a; counted = refl; spelled = refl }

signed_b : IsSignature signature_b
signed_b = record { digits = drop 2 signature_b; counted = refl; spelled = refl }

abbrev both : List Text
both = signature_b ∷ signature_a ∷ []

concatenate_signatures-pieces_example :
    (t : Text) × (concatenate_signatures both ≡ ok t)
    × (length t ≡ 2 + 130 * length both)
    × (pieces (length both) (drop 2 t) ≡ both)
concatenate_signatures-pieces_example =
    concatenate_signatures-pieces both (signed_b, (signed_a, tt))

too_short : (length (codes "0x12") ≢ 132)
too_short = ground arith

abbrev pairs : List CollectedSignatureKeyPair
pairs =
    record { key = codes "0xb"; signature = signature_a }
    ∷ record { key = codes "0xa"; signature = signature_b }
    ∷ []

abbrev device : DeviceInfo
device = record {
  ip_address = codes "::1";
  name = codes "laptop";
  city = codes "Warsaw";
  os = codes "linux";
  browser = codes "firefox";
  time = codes "noon";
}

abbrev request : AuthorisationRequest
request = record { wallet_contract_address = codes "0xAB"; key = codes "0xC"; device_info = device }

abbrev listed : AuthorisationRow
listed = record {
  id = 0;
  wallet_contract_address = codes "0xab";
  key = codes "0xc";
  device_info = device;
}

abbrev requested : Database
requested = record empty { authorisations = listed ∷ []; next_id = 1 }

-- Signatures and private keys that differ in their first letter.
abbrev marking : Ethers
marking = record ethers { sign_message = λ key bytes. b's' ∷ (key ++ bytes) }

abbrev wallets : Wallets
wallets (b ∷ t) = if eqb b b's' then err (codes "exactly 32 bytes required") else ok t
wallets [] = err (codes "exactly 32 bytes required")

calculate_message_signatures_throws_example :
    (thrown : Text) × (calculate_message_signatures marking wallets
        (codes "ka" ∷ codes "kb" ∷ [])
        message_a
      ≡ err thrown)
calculate_message_signatures_throws_example =
    calculate_message_signatures_throws marking wallets
      (λ key bytes. (codes "exactly 32 bytes required", refl)) (codes "ka") (codes "kb") []
      message_a
