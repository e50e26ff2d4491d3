-- ===== src/Tests/Observing.antt =====
-- An observer that waits for a contract.
use universal_login_sdk.Prelude.{◌≤◌, List, [], ◌∷◌, Text, codes, Result, ok, length}
use universal_login_sdk.Sdk.Errors.{SdkError}
use universal_login_sdk.Sdk.DeploymentObserver.{running, Observer}
use universal_login_sdk.Sdk.DeploymentObserver.Turns.{turns, turns-notified}

abbrev keccak256 : Text → Text
keccak256 t = t

abbrev white_list : List Text
white_list = codes "0x60" ∷ []

abbrev observer : Observer
observer = record {
  state = running;
  future_contract_address = codes "0x1";
  notified = [];
  timers = 1;
}

abbrev answers : List (Result SdkError Text)
answers = ok (codes "0x") ∷ ok (codes "0x60") ∷ ok (codes "0x60") ∷ []

turns-notified_example : length (turns keccak256 white_list answers observer).notified ≤ 1
turns-notified_example = turns-notified keccak256 white_list answers observer
