-- ===== src/Commons/Ethers.antt =====
-- What the program takes from the package ethers, as parameters. A function that throws on a bad
-- argument returns an `Option`.
use universal_login_sdk.Prelude.{ℕ, ◌≡◌, Bool, true, Option, some, List, Text, to_decimal}

-- The values that Solidity's packed encoding takes.
pub data SolValue : Type 0 where
  text : Text → SolValue
  number : ℕ → SolValue

pub record Ethers : Type 0 where
  pub keccak256 : Text → Text
  -- whether `solidityKeccak256` takes values of these types, or throws, and the hash where it does
  pub is_packable : List Text → List SolValue → Bool
  pub solidity_keccak256 : List Text → List SolValue → Text
  pub to_utf8_bytes : Text → Text
  pub arrayify : Text → Text
  -- the address that signed the bytes
  pub verify_message : Text → Text → Option Text
  -- whether `new Wallet` takes a text, the signature of the bytes by a private key, and its address
  pub is_private_key : Text → Bool
  pub sign_message : Text → Text → Text
  pub wallet_address : Text → Text
  -- `bigNumberify`, of any text and of an address
  pub big_numberify : Text → Option ℕ
  pub address_number : Text → ℕ

-- `BigNumber.toString()` writes the decimal that `bigNumberify` reads back.
abbrev pub ReadsDecimals : Ethers → Type 0
ReadsDecimals e = (n : ℕ) → e.big_numberify (to_decimal n) ≡ some n

-- Signing and recovering agree: what a private key signs is recovered to the key's address.
abbrev pub RecoversSigner : Ethers → Type 0
RecoversSigner e =
    (private_key bytes : Text)
    → e.is_private_key private_key ≡ true
    → e.verify_message bytes (e.sign_message private_key bytes)
      ≡ some (e.wallet_address private_key)
