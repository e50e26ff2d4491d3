-- ===== src/Tests/Client.antt =====
-- The theorems on the SDK's client, at a relayer that answers at once.
use universal_login_sdk.Prelude.{
  to_decimal, ◌≤◌, ◌≡◌, refl, Bool, true, Option, none, some, [], ◌∷◌, ◌++◌, Text, codes, ◌==◌,
  length, take, take-append_of_length, ok, arith, ap, if◌then◌else◌,
}
use universal_login_sdk.Commons.Ethers.{Ethers, RecoversSigner}
use universal_login_sdk.Commons.Json.{null, Json, string, object, no_fields, field, get_field}
use universal_login_sdk.Commons.Message.{is_hashable, SignedMessage, message_hash_of}
use universal_login_sdk.Commons.Signing.{PartialMessage, create_signed_message, signature_of}
use universal_login_sdk.Sdk.RelayerApi.{
  get, post, put, delete, HttpMethod, HttpRequest, Response, Net, Line, http, catch_wrapped,
}
use universal_login_sdk.Sdk.RelayerApi
use universal_login_sdk.Sdk.Retry.{rounds, retry, sleep}
use universal_login_sdk.Sdk.Retry.Asked.{Asked}
use universal_login_sdk.Sdk.Values.{read, assign, remove_field, print_of}
use universal_login_sdk.Sdk.Client.{
  Client, Provider, message_defaults, is_executed, is_not_executed, given, wait_for_status,
  nonce_of, get_nonce, settled, amount, execute,
}
use universal_login_sdk.Sdk.Client.Waiting.{
  HasNoError, status_request, ask_status, wait_for_status-Asked, wait_for_status-returns,
}
use universal_login_sdk.Sdk.Client.Posting.{IsGet, posted}
use universal_login_sdk.Sdk.Client.Sending.{Carries, execute-posted}
use universal_login_sdk.Wallet.{AnyWallet}
use universal_login_sdk.Wallet.Tokens.{ether_native_token}
use universal_login_sdk.Wallet.Transfers.{TransferDetails, Encoding, ether_message, transfer}
use universal_login_sdk.Wallet.Transfers.Posted.{transfer-posted}
use universal_login_sdk.Tests.Samples.{ethers}

-- Signatures begin with the length of the key and the key.
abbrev recovered : Text → Option Text
recovered [] = none
recovered (n ∷ rest) = some (take n rest)

abbrev signing : Ethers
signing = record ethers {
  sign_message = λ key bytes. length key ∷ (key ++ bytes);
  verify_message = λ bytes signature. recovered signature;
  wallet_address = λ key. key;
}

signing-RecoversSigner : RecoversSigner signing
signing-RecoversSigner key bytes valid = ap some (take-append_of_length (length key) key bytes refl)

abbrev answer_to : HttpMethod → Response
answer_to get = record { is_ok = true; text = codes "done" }
answer_to _ = record { is_ok = true; text = codes "taken" }

abbrev done : Json
done =
    object (
      field (codes "transactionHash") (string (codes "0x99"))
        (field (codes "error") null no_fields))

abbrev taken : Json
taken = object (
    field (codes "status") (object (field (codes "messageHash") (string (codes "0xa")) no_fields))
      no_fields)

-- A message is taken, and executed when its status is asked for.
abbrev net : Net
net = record {
  fetch = λ before r. ok (answer_to r.method);
  duration = λ before. 30;
  lateness = λ before. 2;
  parse = λ t. if t == codes "done" then some done else some taken;
}

abbrev provider : Provider
provider = record {
  last_nonce = λ before wallet key. ok 4;
  get_code = λ before address. ok (codes "0x");
  namehash = λ name. some name;
  resolver = λ before ens node. ok (codes "0x1");
  addr = λ before resolver node. ok (codes "0x2");
  wait_for_transaction = λ hash. ok (codes "0x3");
}

abbrev start : Line
start = record { now = 100; requests = [] }

abbrev client : Client
client = record {
  line = start;
  config = none;
  balance_observer = none;
  deployment_observer = none;
  future_wallet_factory = none;
}

abbrev url : Text
url = codes "http://relayer"

abbrev sending : PartialMessage
sending = record message_defaults {
  to = some (codes "0xb");
  from = some (codes "0xa");
  nonce = some (codes "7");
  value = some 3;
}

execute_runs :
    (execute signing net url provider message_defaults sending (codes "key") client).0
    ≡ ok (
        some (
          object (
            field
              (codes "transactionHash")
              (string (codes "0x99"))
              (field (codes "messageHash") (string (codes "0xa")) no_fields))))
unfolding execute nonce_of given settled create_signed_message signature_of is_hashable
    message_hash_of amount RelayerApi.execute catch_wrapped assign remove_field print_of
    wait_for_status retry rounds sleep RelayerApi.get_status http RelayerApi.handle_api_response
    RelayerApi.get_json_or_text read get_field ◌==◌ is_not_executed is_executed
execute_runs = refl

execute-posted_example :
    (m : SignedMessage) × Asked IsGet 5
      (posted signing net url provider message_defaults m ∷ [])
      (execute signing net url provider message_defaults sending
        (codes "key")
        client).1.line.requests
    × (m.nonce ≡ codes "7")
    × (signing.verify_message (signing.arrayify (message_hash_of signing m)) m.signature
        ≡ some (codes "key"))
    × Carries sending m
unfolding nonce_of given is_hashable
execute-posted_example =
    execute-posted signing net url provider message_defaults sending (codes "key") (codes "7")
      (codes "0xa") client signing-RecoversSigner refl refl refl refl

wait_for_status-Asked_example :
    Asked
      (λ r. r ≡ status_request net url (codes "0xa"))
      5
      []
      (wait_for_status net url (codes "0xa") start).1.requests
wait_for_status-Asked_example = wait_for_status-Asked net url (codes "0xa") start

asked :
    (v : Line)
    → (status : Json) × (ended : Bool) × ((ask_status net url (codes "0xa") v).0 ≡ ok status)
      × (is_executed status ≡ ok ended)
      × HasNoError net url (codes "0xa") status
      × (0 ≤ length v.requests → ended ≡ true)
unfolding is_executed read get_field ◌==◌ RelayerApi.get_status http RelayerApi.handle_api_response
    RelayerApi.get_json_or_text
asked v = (done, true, refl, refl, (some null, refl, refl), λ h. refl)

wait_for_status-returns_example :
    (status : Json) × (w' : Line) × (wait_for_status net url (codes "0xa") start ≡ (ok status, w'))
wait_for_status-returns_example =
    wait_for_status-returns net url (codes "0xa") 32 0 asked (λ v. omega arith) start 0
      (omega arith) (omega arith)

-- A wallet that sends ether, whose amounts are read as their lengths.
abbrev encoding : Encoding
encoding = record { parse_ether = λ amount. ok (length amount); transfer = λ to value. ok to }

abbrev wallet : AnyWallet
wallet =
    AnyWallet.user
      (record { name = codes "joe"; contract_address = codes "0xa"; private_key = codes "key" })

abbrev details : TransferDetails
details = record { to = codes "0xb"; amount = codes "1.5"; currency = codes "ETH" }

transfer-posted_example :
    (m : SignedMessage) × Asked IsGet 5
      (posted signing net url provider message_defaults m ∷ [])
      (transfer encoding [] signing net url provider message_defaults
        (some wallet)
        details
        client).1.line.requests
    × (m.from ≡ codes "0xa")
    × (m.to ≡ codes "0xb")
    × (m.value ≡ 3)
    × (m.gas_token ≡ ether_native_token.address)
    × (signing.verify_message (signing.arrayify (message_hash_of signing m)) m.signature
        ≡ some (codes "key"))
unfolding nonce_of given get_nonce ether_message to_decimal is_hashable
transfer-posted_example =
    transfer-posted encoding [] signing net url provider message_defaults wallet details 3
      (codes "4") client signing-RecoversSigner refl refl (omega arith) refl refl refl
