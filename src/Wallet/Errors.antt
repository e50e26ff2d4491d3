-- ===== src/Wallet/Errors.antt =====
-- core/errors.ts of the wallet application: its exceptions.
use universal_login_sdk.Prelude.{Option, none, some, Text, codes}
use universal_login_sdk.Wallet.{WalletError}

-- The string union `ErrorType`.
pub data WalletErrorType : Type 0 where
  user_wallet_not_found not_found overriden wallet_overriden future_wallet_not_set no_set :
      WalletErrorType

pub data WalletErrorClass : Type 0 where
  wallet_error not_found not_set overriden user_wallet_not_found wallet_overriden
        future_wallet_not_set :
      WalletErrorClass

-- `extends`, as far as `Error`
pub extends : WalletErrorClass → Option WalletErrorClass
extends WalletErrorClass.wallet_error = none
extends WalletErrorClass.not_found = some WalletErrorClass.wallet_error
extends WalletErrorClass.not_set = some WalletErrorClass.wallet_error
extends WalletErrorClass.overriden = some WalletErrorClass.wallet_error
extends WalletErrorClass.user_wallet_not_found = some WalletErrorClass.not_found
extends WalletErrorClass.wallet_overriden = some WalletErrorClass.overriden
extends WalletErrorClass.future_wallet_not_set = some WalletErrorClass.not_set

-- The class after `new`, which is the prototype that each constructor sets last.
pub class_of : WalletError → Option WalletErrorClass
class_of WalletError.user_wallet_not_found = some WalletErrorClass.user_wallet_not_found
class_of WalletError.wallet_overriden = some WalletErrorClass.wallet_overriden
class_of WalletError.future_wallet_not_set = some WalletErrorClass.future_wallet_not_set
class_of (WalletError.error _) = none
class_of (WalletError.sdk _) = none

-- The field `errorType`, which is that of the class above.
pub error_type : WalletError → Option WalletErrorType
error_type WalletError.user_wallet_not_found = some WalletErrorType.not_found
error_type WalletError.wallet_overriden = some WalletErrorType.overriden
error_type WalletError.future_wallet_not_set = some WalletErrorType.no_set
error_type (WalletError.error _) = none
error_type (WalletError.sdk _) = none

-- The field `message` of the application's errors.
pub message : WalletError → Option Text
message WalletError.user_wallet_not_found = some (codes "User wallet not found")
message WalletError.wallet_overriden = some (codes "Wallet cannot be overrided")
message WalletError.future_wallet_not_set = some (codes "Future wallet was not set")
message (WalletError.error text) = some text
message (WalletError.sdk _) = none
