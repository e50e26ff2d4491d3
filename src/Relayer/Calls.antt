-- ===== src/Relayer/Calls.antt =====
-- The calls of the wallet contract as data: `executeSigned` with universal-login-contracts's
-- encode.ts and core/utils/messages/serialisation.ts, and the recognition of `addKey` and `addKeys`
-- in core/utils/utils.ts.
use universal_login_sdk.Prelude.{
  ℕ, ◌+◌, ◌*◌, ◌-◌, Bool, not, Option, none, some, [], ◌∷◌, ◌++◌, Text, codes, ◌==◌, starts_with,
  take, drop, length, leb, Result, ok, err, if◌then◌else◌, ◌&&◌, to_decimal,
}
use universal_login_sdk.Commons.Message.{SignedMessage}
use universal_login_sdk.Relayer.Errors.{Exception, invalid_hex_data, other}

-- The arguments of `executeSigned`, in order.
pub record ExecuteArgs : Type 0 where
  pub to : Text
  pub value : ℕ
  pub data_field : Text
  pub nonce : ℕ
  pub gas_price : ℕ
  pub gas_token : Text
  pub gas_limit : ℕ
  pub operation_type : ℕ
  pub signature : Text

-- What the program takes from the contract's interface: selectors, of "0x" and eight digits, and
-- the coding of arguments. Amounts are decoded to big numbers.
pub record Abi : Type 0 where
  pub execute_signed_sighash : Text
  pub add_key_sighash : Text
  pub add_keys_sighash : Text
  -- the digits of the arguments; a nonce that is no number throws
  pub encode_arguments : ExecuteArgs → Text
  pub decode_arguments : Text → Option ExecuteArgs
  -- `bytes32` and `uint256`, and the address in the first
  pub decode_key : Text → Option Text
  pub to_number : Text → Option ℕ

abbrev pub arguments_of : SignedMessage → ℕ → ExecuteArgs
arguments_of m nonce = record {
  to = m.to;
  value = m.value;
  data_field = m.data_field;
  nonce = nonce;
  gas_price = m.gas_price;
  gas_token = m.gas_token;
  gas_limit = m.gas_limit;
  operation_type = m.operation_type;
  signature = m.signature;
}

module _ (abi : Abi) where
  -- `encodeDataForExecuteSigned`: the selector and the arguments
  unfoldable pub encode_data_for_execute_signed : SignedMessage → Option Text
  encode_data_for_execute_signed m = elim (abi.to_number m.nonce) [
    | none ↦ none
    | some nonce ↦ some (abi.execute_signed_sighash ++ abi.encode_arguments (arguments_of m nonce))
  ]

-- `removeLeadingBytes`
remove_leading_bytes : ℕ → Text → Result Exception Text
remove_leading_bytes n t =
    if not (starts_with t (codes "0x"))
    then err (invalid_hex_data t)
    else ok (codes "0x" ++ drop (n * 2 + 2) t)

pub remove_function_sig_from_data : Text → Result Exception Text
unfolding remove_leading_bytes
remove_function_sig_from_data = remove_leading_bytes 4

-- A hexadecimal digit's value.
abbrev hex_digit : ℕ → Option ℕ
hex_digit c =
    if leb b'0' c && leb c b'9'
    then some (c - b'0')
    else if leb b'a' c && leb c b'f'
    then some (c - b'a' + 10)
    else if leb b'A' c && leb c b'F'
    then some (c - b'A' + 10)
    else none

-- `parseInt(text, 16)` on a text of digits: it stops at the first other character.
parse_hex_from : ℕ → Text → ℕ
parse_hex_from n [] = n
parse_hex_from n (c ∷ t) = elim (hex_digit c) [ none ↦ n | some d ↦ parse_hex_from (n * 16 + d) t ]

pub parse_hex : Text → ℕ
unfolding parse_hex_from
parse_hex t = parse_hex_from 0 t

-- `MessageWithoutFrom`
pub record DecodedMessage : Type 0 where
  pub to : Text
  pub value : ℕ
  pub data_field : Text
  pub nonce : ℕ
  pub gas_price : ℕ
  pub gas_token : Text
  pub gas_limit : ℕ
  pub operation_type : ℕ
  pub signature : Text

-- `dataToMessage`: nonce and operation type are big numbers, which `parseInt` reads through their
-- decimal text as if it were hexadecimal.
pub data_to_message : ExecuteArgs → DecodedMessage
data_to_message a = record {
  to = a.to;
  value = a.value;
  data_field = a.data_field;
  nonce = parse_hex (to_decimal a.nonce);
  gas_price = a.gas_price;
  gas_token = a.gas_token;
  gas_limit = a.gas_limit;
  operation_type = parse_hex (to_decimal a.operation_type);
  signature = a.signature;
}

-- What the coder throws on data that it cannot read.
pub bad_data : Exception
bad_data = other (codes "Error") (codes "invalid arguments")

infixl 5 ◌>>=◌
abbrev ◌>>=◌ : {A B : Type 0} → Result Exception A → (A → Result Exception B) → Result Exception B
ok a >>= f = f a
err x >>= f = err x

abbrev or_throw : {A : Type 0} → Option A → Exception → Result Exception A
or_throw none x = err x
or_throw (some a) x = ok a

module _ (abi : Abi) where
  pub decode_data_for_execute_signed : Text → Result Exception DecodedMessage
  decode_data_for_execute_signed data_text = do
    arguments ← remove_function_sig_from_data data_text
    decoded ← or_throw (abi.decode_arguments arguments) bad_data
    ok (data_to_message decoded)

  -- `isDataForFunctionCall`: the data begins with the function's selector
  pub is_data_for_function_call : Text → Text → Bool
  is_data_for_function_call data_text sighash = sighash == take (length sighash) data_text

  pub is_add_key_call : Text → Bool
  unfolding is_data_for_function_call
  is_add_key_call data_text = is_data_for_function_call data_text abi.add_key_sighash

  pub is_add_keys_call : Text → Bool
  unfolding is_data_for_function_call
  is_add_keys_call data_text = is_data_for_function_call data_text abi.add_keys_sighash

-- `text.replace(pattern, '')`: without the first occurrence
pub remove_first : Text → Text → Text
remove_first pattern_text [] = []
remove_first pattern_text (c ∷ t) =
    if starts_with (c ∷ t) pattern_text
    then drop (length pattern_text) (c ∷ t)
    else c ∷ remove_first pattern_text t

module _ (abi : Abi) where
  -- `getKeyFromData`: the selector's digits are cut out, and the address is decoded
  pub get_key_from_data : Text → Result Exception Text
  unfolding remove_first
  get_key_from_data data_text =
      or_throw (abi.decode_key (remove_first (drop 2 abi.add_key_sighash) data_text)) bad_data
