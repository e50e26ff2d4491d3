-- ===== src/Sdk/Observers.antt =====
-- observers/ObserverBase.ts and observers/RelayerObserver.ts: listeners by the filter they subscribe
-- with, and the requests of devices that are asked for at each tick. `deepEqual` is a parameter.
pub mod Changes
use universal_login_sdk.Prelude.{
  ℕ, suc, Bool, true, false, not, ◌&&◌, Option, none, some, List, [], ◌∷◌, ◌++◌, Text, codes, ◌==◌,
  to_lower_case, map, filter, Result, ok, err, Exec, pure, gets, lift, modify, ◌>>=◌, ◌>>◌,
  if◌then◌else◌,
}
use universal_login_sdk.Commons.Json.{Json, object, no_fields}
use universal_login_sdk.Sdk.Errors.{SdkError}
use universal_login_sdk.Sdk.RelayerApi.{Net, Line, Api}
use universal_login_sdk.Sdk.RelayerApi
use universal_login_sdk.Sdk.Values.{read}

-- `filter`; an object that is stringified and parsed again is the same.
pub record Filter : Type 0 where
  pub contract_address : Text
  pub key : Option Text

-- A callback, by its number.
pub record Listener : Type 0 where
  pub event_type : Text
  pub callback : ℕ

-- An `EventEmitter` with the filter it stands under.
pub record Emitter : Type 0 where
  pub filter : Filter
  pub listeners : List Listener

-- What a callback was called with.
pub record Call : Type 0 where
  pub callback : ℕ
  pub argument : Option Json

abbrev same_key : Option Text → Option Text → Bool
same_key none none = true
same_key (some a) (some b) = a == b
same_key _ _ = false

-- `JSON.stringify` tells two filters apart.
unfoldable pub same_filter : Filter → Filter → Bool
same_filter a b = a.contract_address == b.contract_address && same_key a.key b.key

-- the `if` of `subscribe`
unfoldable pub lowered : Filter → Filter
lowered f = record {
  contract_address = f.contract_address;
  key = elim f.key [ none ↦ none | some k ↦ some (to_lower_case k) ];
}

-- The emitter of a filter gets a listener; one that is missing is made.
unfoldable pub add_listener : Filter → Listener → List Emitter → List Emitter
add_listener f l [] = record { filter = f; listeners = l ∷ [] } ∷ []
add_listener f l (e ∷ es) =
    let rest = add_listener f l es in
    if same_filter e.filter f
    then record { filter = e.filter; listeners = e.listeners ++ l ∷ [] } ∷ es
    else e ∷ rest

-- `subscribe` of ObserverBase
unfoldable pub subscribe : Text → Filter → ℕ → List Emitter → List Emitter
unfolding add_listener lowered
subscribe event_type f callback =
    add_listener (lowered f) (record { event_type = event_type; callback = callback })

-- `emit`: the listeners of the event are called, in their order.
unfoldable pub emit : Text → Option Json → List Listener → List Call
emit event_type argument listeners =
    map (λ l. record { callback = l.callback; argument = argument })
      (filter (λ l. l.event_type == event_type) listeners)

-- The observer, and the calls it made, first first.
pub record RelayerObserver : Type 0 where
  pub line : Line
  pub emitters : List Emitter
  pub last_authorisations : Option Json
  pub calls : List Call

abbrev pub Observing : Type 0 → Type 0
Observing A = Exec SdkError RelayerObserver A

unfoldable pub new_observer : Line → RelayerObserver
new_observer line = record {
  line = line;
  emitters = [];
  last_authorisations = some (object no_fields);
  calls = [];
}

module _ (net : Net) (base_url : Text) (deep_equal : Option Json → Option Json → Bool) where
  -- `fetchPendingAuthorisations`
  unfoldable pub fetch_pending_authorisations : Text → Observing (Option Json)
  fetch_pending_authorisations contract_address o =
      let (r, line) = RelayerApi.get_pending_authorisations net base_url contract_address o.line in
      elim r [
        | err x ↦ (err x, record o { line = line })
        | ok answer ↦ (read (codes "response") (some answer), record o { line = line })
      ]

  -- the `if` of `checkAuthorisationsChangedFor`
  unfoldable pub on_authorisations : Emitter → Option Json → Observing (Unit {0})
  on_authorisations emitter authorisations = modify (λ o.
      if deep_equal authorisations o.last_authorisations then o else record o {
        last_authorisations = authorisations;
        calls = o.calls ++ emit (codes "AuthorisationsChanged") authorisations emitter.listeners;
      })

  -- `checkAuthorisationsChangedFor`
  unfoldable pub check_authorisations_changed_for : Emitter → Observing (Unit {0})
  unfolding on_authorisations
  check_authorisations_changed_for emitter = do
    authorisations ← fetch_pending_authorisations (to_lower_case emitter.filter.contract_address)
    on_authorisations emitter authorisations

  -- the loop of `checkAuthorisationRequests`
  unfoldable pub check_each : List Emitter → Observing (Unit {0})
  check_each [] = pure tt
  check_each (emitter ∷ rest) = check_authorisations_changed_for emitter >> check_each rest

  -- `checkAuthorisationRequests`, which is `tick`
  unfoldable pub check_authorisation_requests : Observing (Unit {0})
  unfolding check_each
  check_authorisation_requests = do emitters ← gets (λ o. o.emitters); check_each emitters
