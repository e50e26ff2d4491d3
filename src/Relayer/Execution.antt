-- ===== src/Relayer/Execution.antt =====
-- integration/ethereum/MessageExecutor.ts and validations.ts, core/services/messages/
-- MessageValidator.ts, and the callback of core/services/MessageHandler.ts: one message is checked,
-- sent to the network, waited for, and reported.
pub mod Effects
pub mod Sending
use universal_login_sdk.Prelude.{
  ℕ, Bool, true, false, not, ◌≡◌, Option, none, some, List, [], ◌∷◌, ◌++◌, Text, codes, ◌==◌, leb,
  any, length, eqb, Result, ok, err, Exec, pure, raise, gets, lift, or_raise, modify, ensure, ◌>>=◌,
  ◌>>◌, if◌then◌else◌,
}
use universal_login_sdk.Commons.Ethers.{Ethers}
use universal_login_sdk.Commons.Message.{SignedMessage}
use universal_login_sdk.Relayer.Errors.{
  Exception, invalid_contract, invalid_proxy, not_enough_tokens, not_enough_gas, other,
}
use universal_login_sdk.Relayer.Database.{Database, Action, Chain}
use universal_login_sdk.Relayer.Authorisation.{remove_request}
use universal_login_sdk.Relayer.Calls.{
  Abi, DecodedMessage, encode_data_for_execute_signed, decode_data_for_execute_signed,
  is_add_key_call, is_add_keys_call, get_key_from_data, bad_data,
}

-- `providers.TransactionRequest`, as `messageToTransaction` builds it
pub record Transaction : Type 0 where
  pub gas_price : ℕ
  pub gas_limit : ℕ
  pub to : Text
  pub value : ℕ
  pub data_field : Text

-- `providers.TransactionResponse`, as far as it is read
pub record TransactionResponse : Type 0 where
  pub hash : Text
  pub to : Text
  pub data_field : Text

-- The network's node: what it answers to a transaction, given those sent before, and whether a
-- transaction comes to be mined.
pub record Node : Type 0 where
  pub chain : Chain
  pub estimate_gas : Transaction → Text → Result Exception ℕ
  pub send_transaction : List Transaction → Transaction → Result Exception TransactionResponse
  pub wait_for_transaction : Text → Result Exception (Unit {0})

-- The events of the relayer's hooks.
pub data Hook : Type 0 where
  added keys_added : TransactionResponse → Hook

-- The relayer's tables, the transactions that the node took, and the events emitted, last first.
pub record World : Type 0 where
  pub database : Database
  pub sent : List Transaction
  pub hooks : List Hook

abbrev pub Task : Type 0 → Type 0
Task A = Exec Exception World A

-- A query to the database.
abbrev pub query : {A : Type 0} → Action A → Task A
query m w = let (r, db) = m w.database in (r, record w { database = db })

-- `ETHER_NATIVE_TOKEN.address`
unfoldable pub ether_address : Text
ether_address = codes "0x0000000000000000000000000000000000000000"

-- `isContractExist` of universal-login-commons/lib/core/utils/contracts/contractHelpers.ts
unfoldable pub is_contract_exist : Text → Result Exception Bool
is_contract_exist bytecode =
    if leb 1 (length bytecode)
    then ok (not (bytecode == codes "0x"))
    else err (other (codes "Error") (codes "Empty bytecode"))

-- `messageToTransaction` of core/utils/utils.ts
unfoldable pub message_to_transaction : Abi → SignedMessage → Result Exception Transaction
message_to_transaction abi m = elim (encode_data_for_execute_signed abi m) [
  | none ↦ err bad_data
  | some data_text ↦ ok (record {
    gas_price = m.gas_price;
    gas_limit = m.gas_limit;
    to = m.from;
    value = 0;
    data_field = data_text;
  })
]

module _ (e : Ethers) (node : Node) where
  -- `isContract`
  unfoldable pub is_contract : Text → Task Bool
  unfolding is_contract_exist
  is_contract address = do
    bytecode ← lift (node.chain.get_code address)
    lift (is_contract_exist bytecode)

  -- the last two branches of `hasEnoughToken`
  unfoldable pub token_enough : Bool → Text → Text → ℕ → Task Bool
  token_enough false gas_token wallet_address gas_limit = raise (invalid_contract gas_token)
  token_enough true gas_token wallet_address gas_limit = do
    balance ← lift (node.chain.balance_of gas_token wallet_address)
    pure (leb gas_limit balance)

  unfoldable pub ether_enough : Text → ℕ → Task Bool
  ether_enough wallet_address gas_limit = do
    balance ← lift (node.chain.get_balance wallet_address)
    pure (leb gas_limit balance)

  unfoldable pub has_enough_token : Text → Text → ℕ → Task Bool
  unfolding token_enough ether_enough is_contract
  has_enough_token gas_token wallet_address gas_limit =
      if gas_token == ether_address
      then ether_enough wallet_address gas_limit
      else (is_contract gas_token >>= λ exists.
          token_enough exists gas_token wallet_address gas_limit)

  unfoldable pub ensure_enough_token : SignedMessage → Task (Unit {0})
  unfolding has_enough_token
  ensure_enough_token message = do
    enough ← has_enough_token message.gas_token message.from message.gas_limit
    ensure enough not_enough_tokens

  unfoldable pub ensure_enough_gas : Text → Transaction → SignedMessage → Task (Unit {0})
  ensure_enough_gas wallet_address transaction message = do
    estimate ← lift (node.estimate_gas transaction wallet_address)
    ensure (leb estimate message.gas_limit) not_enough_gas

  module _ (white_list : List Text) (wallet_address : Text) where
    -- `ensureCorrectProxy`
    unfoldable pub ensure_correct_proxy : Text → Task (Unit {0})
    ensure_correct_proxy from = do
      bytecode ← lift (node.chain.get_code from)
      let hash = e.keccak256 bytecode
      ensure (any (λ h. h == hash) white_list) (invalid_proxy from hash white_list)

    -- `validate`
    unfoldable pub validate : SignedMessage → Transaction → Task (Unit {0})
    unfolding ensure_correct_proxy ensure_enough_token ensure_enough_gas
    validate message transaction = do
      ensure_correct_proxy message.from
      ensure_enough_token message
      ensure_enough_gas wallet_address transaction message

module _ (abi : Abi) where
  -- `removeReqFromAuthService`, for a message from the address
  unfoldable pub remove_request_of_key : Text → Text → Task (Unit {0})
  remove_request_of_key data_text from = do
    key ← lift (get_key_from_data abi data_text)
    query (remove_request from key)

  unfoldable pub emit : Hook → Task (Unit {0})
  emit h = modify (λ w. record w { hooks = h ∷ w.hooks })

  -- the body of the `if` of `onTransactionSent`
  unfoldable pub report : Text → TransactionResponse → Task (Unit {0})
  unfolding remove_request_of_key emit
  report data_text sent =
      if is_add_key_call abi data_text
      then (remove_request_of_key data_text sent.to >> emit (added sent))
      else if is_add_keys_call abi data_text
      then emit (keys_added sent)
      else pure tt

  -- `onTransactionSent`: only calls of a wallet to itself are looked at
  unfoldable pub on_transaction_sent : TransactionResponse → Task (Unit {0})
  unfolding report
  on_transaction_sent sent = do
    message ← lift (decode_data_for_execute_signed abi sent.data_field)
    (if message.to == sent.to then report message.data_field sent else pure tt)

module _ (e : Ethers) (abi : Abi) (node : Node) (white_list : List Text)
    (wallet_address : Text) where
  -- `wallet.sendTransaction`
  unfoldable pub send_transaction : Transaction → Task TransactionResponse
  send_transaction transaction = do
    response ← (λ w. (node.send_transaction w.sent transaction, w))
    modify (λ w. record w { sent = transaction ∷ w.sent })
    pure response

  -- `executeAndWait`
  unfoldable pub execute_and_wait : SignedMessage → Task TransactionResponse
  unfolding send_transaction
  execute_and_wait message = do
    transaction ← lift (message_to_transaction abi message)
    validate e node white_list wallet_address message transaction
    response ← send_transaction transaction
    lift (node.wait_for_transaction response.hash)
    on_transaction_sent abi response
    pure response
