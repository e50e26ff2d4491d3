-- ===== src/Tests/Samples.antt =====
-- A small network: two owners of a wallet, and messages that they sign.
use universal_login_sdk.Prelude.{
  true, ℕ, Option, none, some, List, [], ◌∷◌, ◌++◌, Text, codes, ok, repeat, digits_value,
  digits_value-to_decimal, ap, to_decimal, length, take, drop,
}
use universal_login_sdk.Commons.Ethers.{Ethers, SolValue, text, number, ReadsDecimals}
use universal_login_sdk.Commons.Message.{SignedMessage, stringify_signed_message_fields}
use universal_login_sdk.Relayer.Database.{Database, Chain, QueueRow}
use universal_login_sdk.Relayer.Calls.{Abi, ExecuteArgs}
use universal_login_sdk.Relayer.Execution.{Node, World}

-- The first code unit after "0x".
abbrev third : Text → ℕ
third (_ ∷ _ ∷ c ∷ _) = c
third _ = 0

-- What stands for a signer's address: "0x" and the first digit of the signature.
abbrev signer : Text → Text
signer (a ∷ b ∷ c ∷ _) = a ∷ b ∷ c ∷ []
signer _ = []

abbrev packed : List SolValue → Text
packed [] = []
packed (text t ∷ vs) = t ++ packed vs
packed (number n ∷ vs) = to_decimal n ++ packed vs

-- Hashes are the hashed text itself, and a signature begins with its signer.
abbrev pub ethers : Ethers
ethers = record {
  keccak256 = λ t. t;
  is_packable = λ types values. true;
  is_private_key = λ key. true;
  solidity_keccak256 = λ types values. packed values;
  to_utf8_bytes = λ t. t;
  arrayify = λ t. t;
  verify_message = λ bytes signature. some (signer signature);
  sign_message = λ key bytes. key ++ bytes;
  wallet_address = λ key. signer key;
  big_numberify = λ t. some (digits_value 0 t);
  address_number = third;
}

pub ethers-ReadsDecimals : ReadsDecimals ethers
ethers-ReadsDecimals n = ap some (digits_value-to_decimal n)

-- Every wallet requires two signatures, and knows every key.
abbrev pub chain : Chain
chain = record {
  required_signatures = λ wallet. ok 2;
  get_key_purpose = λ wallet key. ok 1;
  get_code = λ address. ok (codes "code");
  get_balance = λ address. ok 1000;
  balance_of = λ token address. ok 1000;
}

abbrev pub signature_a : Text
signature_a = codes "0x" ++ repeat 130 b'b'

abbrev pub signature_b : Text
signature_b = codes "0x" ++ repeat 130 b'a'

abbrev pub message_a : SignedMessage
message_a = record {
  gas_token = codes "token";
  operation_type = 0;
  to = codes "wallet";
  from = codes "wallet";
  nonce = codes "7";
  gas_limit = 100;
  gas_price = 1;
  data_field = codes "0xadd";
  value = 3;
  signature = signature_a;
}

abbrev pub message_b : SignedMessage
message_b = record message_a { signature = signature_b }

abbrev pub empty : Database
empty = record {
  messages = [];
  signature_key_pairs = [];
  final_messages = [];
  authorisations = [];
  now = 5;
  next_id = 0;
  ties = λ r q. true;
}

-- Arguments as their numbers, the lengths of all texts but the last, and the texts.
abbrev encode : ExecuteArgs → Text
encode a =
    a.value
    ∷ a.nonce
    ∷ a.gas_price
    ∷ a.gas_limit
    ∷ a.operation_type
    ∷ length a.to
    ∷ length a.data_field
    ∷ length a.gas_token
    ∷ (a.to ++ (a.data_field ++ (a.gas_token ++ a.signature)))

abbrev decode : Text → Option ExecuteArgs
decode (_ ∷ _ ∷ value ∷ nonce ∷ gas_price ∷ gas_limit ∷ operation_type ∷ i ∷ j ∷ k ∷ rest) =
    some (record {
      to = take i rest;
      value = value;
      data_field = take j (drop i rest);
      nonce = nonce;
      gas_price = gas_price;
      gas_token = take k (drop j (drop i rest));
      gas_limit = gas_limit;
      operation_type = operation_type;
      signature = drop k (drop j (drop i rest));
    })
decode _ = none

abbrev pub abi : Abi
abi = record {
  execute_signed_sighash = codes "0xaacaaf88";
  add_key_sighash = codes "0xadd00001";
  add_keys_sighash = codes "0xadd00002";
  encode_arguments = encode;
  decode_arguments = decode;
  decode_key = λ t. some t;
  to_number = λ t. some (digits_value 0 t);
}

-- A node that takes every transaction.
abbrev pub node : Node
node = record {
  chain = chain;
  estimate_gas = λ transaction payer. ok 50;
  send_transaction = λ sent transaction.
      ok (record { hash = codes "0x99"; to = transaction.to; data_field = transaction.data_field });
  wait_for_transaction = λ hash. ok tt;
}

abbrev pub white_list : List Text
white_list = codes "code" ∷ []

abbrev row : Text → ℕ → QueueRow
row hash created_at = record {
  message_hash = hash;
  message = stringify_signed_message_fields message_a;
  transaction_hash = none;
  error = none;
  created_at = created_at;
}

-- Two messages wait, the older one after the younger.
abbrev pub young : QueueRow
young = row (codes "0xb") 4

abbrev pub old : QueueRow
old = row (codes "0xa") 2

abbrev pub busy : World
busy = record {
  database = record empty { final_messages = young ∷ old ∷ [] };
  sent = [];
  hooks = [];
}
