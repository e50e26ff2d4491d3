-- ===== src/Tests/Watching.antt =====
-- The theorems on the SDK's observers, at two wallets with different requests, at a node with
-- one event, and on debounced calls.
use universal_login_sdk.Prelude.{
  ℕ, ◌≡◌, refl, Bool, true, false, Option, none, some, [], ◌∷◌, ◌++◌, Text, codes, ◌==◌,
  to_lower_case, ok, arith,
}
use universal_login_sdk.Commons.Json.{Json, string, object, no_fields, field, get_field}
use universal_login_sdk.Sdk.RelayerApi.{HttpRequest, Response, Net, Line, http}
use universal_login_sdk.Sdk.RelayerApi
use universal_login_sdk.Sdk.Values.{read}
use universal_login_sdk.Sdk.Observers.{
  Emitter, RelayerObserver, fetch_pending_authorisations, check_each, subscribe, add_listener,
  lowered,
}
use universal_login_sdk.Sdk.Observers.Changes.{IsSteady, notice, check_each-unchanged}
use universal_login_sdk.Sdk.BlockchainObserver.{
  EventNode, BlockchainObserver, parse_args, notify, deliver, get_logs, fetch_for,
  fetch_events_of_type, read_block, emit, fetch_events,
}
use universal_login_sdk.Sdk.BlockchainObserver.Keys.{Added, IsAsked, fetch_events-IsAsked}
use universal_login_sdk.Commons.Debounce.{
  Debounced, Run, here, then, called, passed, fired, call, do_later, fresh,
}
use universal_login_sdk.Commons.Debounce.Spacing.{AreSpaced, Run-AreSpaced}

-- A relayer that answers with the path that it is asked for.
abbrev net : Net
net = record {
  fetch = λ before r. ok (record { is_ok = true; text = r.url });
  duration = λ before. 30;
  lateness = λ before. 2;
  parse = λ t. some (object (field (codes "response") (string t) no_fields));
}

abbrev answers : Text → Option Json
answers address = some (string (codes "r" ++ (codes "/authorisation/" ++ address)))

abbrev deep_equal : Option Json → Option Json → Bool
deep_equal (some (string a)) (some (string b)) = a == b
deep_equal _ _ = false

net-IsSteady : IsSteady net (codes "r") deep_equal answers
unfolding fetch_pending_authorisations RelayerApi.get_pending_authorisations http
    RelayerApi.handle_api_response RelayerApi.get_json_or_text read get_field ◌==◌
net-IsSteady address o = refl

abbrev of_wallet : Text → Option Text → ℕ → Emitter
of_wallet address key callback = record {
  filter = record { contract_address = address; key = key };
  listeners =
      record { event_type = codes "AuthorisationsChanged"; callback = callback }
      ∷ record { event_type = codes "KeyAdded"; callback = callback }
      ∷ [];
}

abbrev first : Emitter
first = of_wallet (codes "0xA") none 1

abbrev second : Emitter
second = of_wallet (codes "0xB") none 2

abbrev observer : RelayerObserver
observer = record {
  line = record { now = 0; requests = [] };
  emitters = first ∷ second ∷ [];
  last_authorisations = answers (codes "0xb");
  calls = [];
}

subscribe_runs :
    subscribe
      (codes "KeyAdded")
      (record { contract_address = codes "0xA"; key = some (codes "0xF") })
      1
      []
    ≡ record {
      filter = record { contract_address = codes "0xA"; key = some (codes "0xf") };
      listeners = record { event_type = codes "KeyAdded"; callback = 1 } ∷ [];
    }
      ∷ []
unfolding subscribe add_listener lowered to_lower_case
subscribe_runs = refl

check_each-unchanged_example :
    ((check_each net (codes "r") deep_equal (first ∷ second ∷ []) observer).1.calls
      ≡ notice net (codes "r") deep_equal answers first
        ++ notice net (codes "r") deep_equal answers second)
    × ((check_each net (codes "r") deep_equal (first ∷ second ∷ []) observer).1.last_authorisations
        ≡ answers (codes "0xb"))
unfolding to_lower_case ◌==◌
check_each-unchanged_example =
    check_each-unchanged net (codes "r") deep_equal answers first second observer net-IsSteady refl
      refl refl

-- A node at block 9, with one event.
abbrev node : EventNode
node = record {
  get_block_number = λ asked. ok 9;
  get_logs = λ asked from_block address topic.
      ok (record { topic = topic; key = codes "0xF"; purpose = 1 } ∷ []);
  topic_of = λ event_type. event_type;
}

abbrev waiting : BlockchainObserver
waiting = record {
  emitters = of_wallet (codes "0xA") (some (codes "0xf")) 1 ∷ first ∷ [];
  last_block = some 8;
  calls = [];
  asked = 0;
}

-- The wallet's filter without a key gets nothing.
fetch_events_runs :
    (fetch_events node waiting).1.calls
    ≡ record { callback = 1; args = record { key = codes "0xf"; purpose = 1 } } ∷ []
unfolding fetch_events fetch_events_of_type fetch_for get_logs deliver notify parse_args read_block
    emit to_lower_case ◌==◌
fetch_events_runs = refl

fetch_events-IsAsked_example :
    Added (IsAsked waiting.emitters) waiting (fetch_events node waiting).1
fetch_events-IsAsked_example =
    fetch_events-IsAsked node waiting ((λ same. ground arith), ((λ same. ground arith), tt))

-- Three calls with a wait of ten milliseconds: the first is given up, and the last fires late.
abbrev typed : Debounced ℕ
typed = record {
  now = 40;
  timeout = none;
  ran = record { args = 3; at = 40 } ∷ record { args = 2; at = 15 } ∷ [];
}

typing : Run 10 (fresh 0) typed
unfolding call do_later
typing =
    then
      (then
        (then
          (then
            (then (then (then (then here (called 1 refl)) (passed 5 refl)) (called 2 refl))
              (passed 10 refl))
            (fired (record { args = 2; due = 15 }) refl (omega arith) refl))
          (called 3 refl))
        (passed 25 refl))
      (fired (record { args = 3; due = 25 }) refl (omega arith) refl)

Run-AreSpaced_example : AreSpaced 10 typed.ran
Run-AreSpaced_example = Run-AreSpaced 10 0 typed typing
