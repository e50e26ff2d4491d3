-- ===== src/Sdk/Errors.antt =====
-- utils/errors.ts: the SDK's exceptions, and the others that its calls may throw.
use universal_login_sdk.Prelude.{Option, none, some, Text, codes}
use universal_login_sdk.Commons.Json.{Json}

-- The type `ErrorType` of the errors that have one.
pub data SdkErrorType : Type 0 where
  concurrent_deployment unsupported_bytecode missing_configuration transaction_hash_not_found
        timeout_error :
      SdkErrorType

-- `network` is what `fetch` rejects with, `rejected` the value of an answer that is not ok, and
-- `thrown` a string that is thrown.
pub data SdkError : Type 0 where
  concurrent_deployment unsupported_bytecode missing_configuration transaction_hash_not_found
        timeout_error :
      SdkError
  error network thrown : Text → SdkError
  rejected : Json → SdkError

pub data SdkErrorClass : Type 0 where
  sdk_error conflict concurrent_deployment validation_failed unsupported_bytecode not_found
        missing_configuration transaction_hash_not_found timeout_error :
      SdkErrorClass

-- `extends`, as far as `Error`
pub extends : SdkErrorClass → Option SdkErrorClass
extends SdkErrorClass.sdk_error = none
extends SdkErrorClass.conflict = some SdkErrorClass.sdk_error
extends SdkErrorClass.concurrent_deployment = some SdkErrorClass.conflict
extends SdkErrorClass.validation_failed = some SdkErrorClass.sdk_error
extends SdkErrorClass.unsupported_bytecode = some SdkErrorClass.validation_failed
extends SdkErrorClass.not_found = some SdkErrorClass.sdk_error
extends SdkErrorClass.missing_configuration = some SdkErrorClass.not_found
extends SdkErrorClass.transaction_hash_not_found = some SdkErrorClass.not_found
extends SdkErrorClass.timeout_error = some SdkErrorClass.sdk_error

-- The class after `new`, which is the prototype that each constructor sets last.
pub class_of : SdkError → Option SdkErrorClass
class_of SdkError.concurrent_deployment = some SdkErrorClass.concurrent_deployment
class_of SdkError.unsupported_bytecode = some SdkErrorClass.unsupported_bytecode
class_of SdkError.missing_configuration = some SdkErrorClass.missing_configuration
class_of SdkError.transaction_hash_not_found = some SdkErrorClass.transaction_hash_not_found
class_of SdkError.timeout_error = some SdkErrorClass.timeout_error
class_of (SdkError.error _) = none
class_of (SdkError.network _) = none
class_of (SdkError.thrown _) = none
class_of (SdkError.rejected _) = none

-- The field `errorType`.
pub error_type : SdkError → Option SdkErrorType
error_type SdkError.concurrent_deployment = some SdkErrorType.concurrent_deployment
error_type SdkError.unsupported_bytecode = some SdkErrorType.unsupported_bytecode
error_type SdkError.missing_configuration = some SdkErrorType.missing_configuration
error_type SdkError.transaction_hash_not_found = some SdkErrorType.transaction_hash_not_found
error_type SdkError.timeout_error = some SdkErrorType.timeout_error
error_type (SdkError.error _) = none
error_type (SdkError.network _) = none
error_type (SdkError.thrown _) = none
error_type (SdkError.rejected _) = none

-- The field `message` of an error; a value that is no error has none here.
pub message : SdkError → Option Text
message SdkError.concurrent_deployment = some (
    codes
      "Other wallet waiting for counterfactual deployment. Stop observer to cancel old wallet instantialisation.")
message SdkError.unsupported_bytecode = some (codes "Proxy Bytecode is not supported by relayer")
message SdkError.missing_configuration = some (codes "Relayer configuration not yet loadedr")
message SdkError.transaction_hash_not_found =
    some (codes "Transaction hash is not found in Message Status")
message SdkError.timeout_error = some (codes "Timeout exceeded")
message (SdkError.error text) = some text
message (SdkError.network text) = some text
message (SdkError.thrown _) = none
message (SdkError.rejected _) = none
