-- ===== src/Relayer/Errors.antt =====
-- core/utils/errors.ts: what the relayer throws, as values. An exception keeps the arguments that
-- its constructor is called with.
pub mod Status
use universal_login_sdk.Prelude.{ℕ, Option, none, some, List, ◌++◌, Text, codes, join, to_decimal}

-- The string union `ErrorType`.
pub data ErrorType : Type 0 where
  not_found status_not_found invalid_ens_domain payment_error not_enough_gas : ErrorType
  not_enough_balance invalid_execution invalid_proxy invalid_signature : ErrorType
  duplicated_signature duplicated_execution not_enough_signatures : ErrorType
  invalid_transaction invalid_hex_data duplicated_ens_name : ErrorType

-- The classes, by the names of errors.ts; `error` is JavaScript's own, and `none_at_all` stands for
-- a thrown value that is no object.
pub data ErrorClass : Type 0 where
  error relayer_error validation_failed payment_error not_found conflict : ErrorClass
  invalid_signature invalid_contract invalid_proxy not_enough_signatures : ErrorClass
  invalid_transaction invalid_hex_data invalid_message status_not_found : ErrorClass
  invalid_ens_domain not_enough_gas not_enough_balance not_enough_tokens : ErrorClass
  ens_name_taken duplicated_signature duplicated_execution sanitize_error none_at_all : ErrorClass

-- `sanitize_error` is that of the router's input checks; `other` is an error of a library, with
-- its name and message; `thrown` is a string that is thrown itself.
pub data Exception : Type 0 where
  invalid_signature invalid_contract invalid_transaction invalid_hex_data : Text → Exception
  invalid_message invalid_ens_domain ens_name_taken sanitize_error : Text → Exception
  invalid_proxy : (address proxy_hash : Text) → (supported : List Text) → Exception
  not_enough_signatures : (required actual : ℕ) → Exception
  status_not_found not_enough_gas not_enough_balance not_enough_tokens : Exception
  duplicated_signature duplicated_execution : Exception
  other : (name message : Text) → Exception
  thrown : Text → Exception

-- The `extends` clauses.
pub extends : ErrorClass → Option ErrorClass
extends ErrorClass.error = none
extends ErrorClass.none_at_all = none
extends ErrorClass.relayer_error = some ErrorClass.error
extends ErrorClass.sanitize_error = some ErrorClass.error
extends ErrorClass.validation_failed = some ErrorClass.relayer_error
extends ErrorClass.payment_error = some ErrorClass.relayer_error
extends ErrorClass.not_found = some ErrorClass.relayer_error
extends ErrorClass.conflict = some ErrorClass.relayer_error
extends ErrorClass.invalid_signature = some ErrorClass.validation_failed
extends ErrorClass.invalid_contract = some ErrorClass.validation_failed
extends ErrorClass.invalid_proxy = some ErrorClass.validation_failed
extends ErrorClass.not_enough_signatures = some ErrorClass.validation_failed
extends ErrorClass.invalid_transaction = some ErrorClass.validation_failed
extends ErrorClass.invalid_hex_data = some ErrorClass.validation_failed
extends ErrorClass.invalid_message = some ErrorClass.not_found
extends ErrorClass.invalid_ens_domain = some ErrorClass.not_found
extends ErrorClass.status_not_found = some ErrorClass.not_found
extends ErrorClass.not_enough_gas = some ErrorClass.payment_error
extends ErrorClass.not_enough_balance = some ErrorClass.payment_error
extends ErrorClass.not_enough_tokens = some ErrorClass.payment_error
extends ErrorClass.ens_name_taken = some ErrorClass.conflict
extends ErrorClass.duplicated_signature = some ErrorClass.conflict
extends ErrorClass.duplicated_execution = some ErrorClass.conflict

-- The class named after `new`.
pub class_of : Exception → ErrorClass
class_of (Exception.invalid_signature _) = ErrorClass.invalid_signature
class_of (Exception.invalid_contract _) = ErrorClass.invalid_contract
class_of (Exception.invalid_proxy _ _ _) = ErrorClass.invalid_proxy
class_of (Exception.not_enough_signatures _ _) = ErrorClass.not_enough_signatures
class_of (Exception.invalid_transaction _) = ErrorClass.invalid_transaction
class_of (Exception.invalid_hex_data _) = ErrorClass.invalid_hex_data
class_of (Exception.invalid_message _) = ErrorClass.invalid_message
class_of (Exception.invalid_ens_domain _) = ErrorClass.invalid_ens_domain
class_of Exception.status_not_found = ErrorClass.status_not_found
class_of Exception.not_enough_gas = ErrorClass.not_enough_gas
class_of Exception.not_enough_balance = ErrorClass.not_enough_balance
class_of Exception.not_enough_tokens = ErrorClass.not_enough_tokens
class_of (Exception.ens_name_taken _) = ErrorClass.ens_name_taken
class_of Exception.duplicated_signature = ErrorClass.duplicated_signature
class_of Exception.duplicated_execution = ErrorClass.duplicated_execution
class_of (Exception.sanitize_error _) = ErrorClass.sanitize_error
class_of (Exception.other _ _) = ErrorClass.error
class_of (Exception.thrown _) = ErrorClass.none_at_all

-- The prototype that the constructors leave, by the last `Object.setPrototypeOf` that runs:
-- `InvalidProxy` and `EnsNameTaken` name another class there, and `InvalidENSDomain` has no such
-- line, so that of its superclass stays.
pub prototype_of : Exception → ErrorClass
unfolding class_of
prototype_of (Exception.invalid_proxy _ _ _) = ErrorClass.invalid_contract
prototype_of (Exception.ens_name_taken _) = ErrorClass.duplicated_signature
prototype_of (Exception.invalid_ens_domain _) = ErrorClass.not_found
prototype_of e = class_of e

-- The field `errorType`, which every relayer error has.
pub error_type : Exception → Option ErrorType
error_type (Exception.invalid_signature _) = some ErrorType.invalid_signature
error_type (Exception.invalid_contract _) = some ErrorType.invalid_signature
error_type (Exception.invalid_proxy _ _ _) = some ErrorType.invalid_signature
error_type (Exception.not_enough_signatures _ _) = some ErrorType.not_enough_signatures
error_type (Exception.invalid_transaction _) = some ErrorType.invalid_transaction
error_type (Exception.invalid_hex_data _) = some ErrorType.invalid_hex_data
error_type (Exception.invalid_message _) = some ErrorType.invalid_execution
error_type (Exception.invalid_ens_domain _) = some ErrorType.not_found
error_type Exception.status_not_found = some ErrorType.not_found
error_type Exception.not_enough_gas = some ErrorType.not_enough_gas
error_type Exception.not_enough_balance = some ErrorType.not_enough_balance
error_type Exception.not_enough_tokens = some ErrorType.not_enough_balance
error_type (Exception.ens_name_taken _) = some ErrorType.duplicated_ens_name
error_type Exception.duplicated_signature = some ErrorType.duplicated_signature
error_type Exception.duplicated_execution = some ErrorType.duplicated_execution
error_type (Exception.sanitize_error _) = none
error_type (Exception.other _ _) = none
error_type (Exception.thrown _) = none

-- The field `message`, as each constructor passes it to `super`.
pub message : Exception → Text
message (Exception.invalid_signature more) = codes "Invalid signature " ++ more
message (Exception.invalid_contract address) = codes "Invalid contract address: " ++ address
message (Exception.invalid_proxy address hash supported) =
    codes "Invalid proxy at address '"
    ++ (address
        ++ (codes "'. Deployed contract bytecode hash: '"
            ++ (hash
                ++ (codes "'. Supported bytecode hashes: ["
                    ++ (join (codes ",") supported ++ codes "]")))))
message (Exception.not_enough_signatures required actual) =
    codes "Not enough signatures, required "
    ++ (to_decimal required ++ (codes ", got only " ++ to_decimal actual))
message (Exception.invalid_transaction hash) = codes "Invalid transaction: " ++ hash
message (Exception.invalid_hex_data hex) = codes "Invalid hex data " ++ hex
message (Exception.invalid_message hash) = codes "Could not find message with hash: " ++ hash
message (Exception.invalid_ens_domain domain) =
    codes "ENS domain "
    ++ (domain ++ codes " does not exist or is not compatible with Universal Login")
message Exception.status_not_found = codes "Status not found"
message Exception.not_enough_gas = codes "Not enough gas"
message Exception.not_enough_balance = codes "Not enough balance"
message Exception.not_enough_tokens = codes "Not enough tokens"
message (Exception.ens_name_taken name) = codes "ENS name " ++ (name ++ codes " already taken")
message Exception.duplicated_signature = codes "Signature already collected"
message Exception.duplicated_execution = codes "Execution request already processed"
message (Exception.sanitize_error errors) = errors
message (Exception.other _ text) = text
message (Exception.thrown text) = codes "undefined"

-- The field `name`: none of the relayer's classes sets it, so it is that of `Error`. A string has
-- neither field, and a template prints `undefined`.
pub name : Exception → Text
name (Exception.other given _) = given
name (Exception.thrown text) = codes "undefined"
name _ = codes "Error"
