-- ===== src/Sdk/BlockchainObserver.antt =====
-- observers/BlockchainObserver.ts: the events of wallets' keys, asked for block by block.
pub mod Keys
use universal_login_sdk.Prelude.{
  ℕ, suc, Bool, true, false, ◌||◌, Option, none, some, List, [], ◌∷◌, ◌++◌, Text, codes, ◌==◌,
  to_lower_case, map, filter, Result, ok, err, Exec, pure, gets, lift, modify, ◌>>=◌, ◌>>◌,
  if◌then◌else◌,
}
use universal_login_sdk.Sdk.Errors.{SdkError, thrown}
use universal_login_sdk.Sdk.Observers.{Filter, Listener, Emitter}

-- An entry of the blockchain's log, by its first topic and what `parseLog` reads of it.
pub record Log : Type 0 where
  pub topic : Text
  pub key : Text
  pub purpose : ℕ

-- `{key, purpose}`
pub record KeyArgs : Type 0 where
  pub key : Text
  pub purpose : ℕ

-- What a callback was called with.
pub record KeyCall : Type 0 where
  pub callback : ℕ
  pub args : KeyArgs

-- The node, which may answer otherwise after more questions, and the topic of each event.
pub record EventNode : Type 0 where
  pub get_block_number : ℕ → Result SdkError ℕ
  pub get_logs : ℕ → (from_block : Option ℕ) → (address topic : Text) → Result SdkError (List Log)
  pub topic_of : Text → Text

-- The observer, the calls it made, first first, and how many questions it asked.
pub record BlockchainObserver : Type 0 where
  pub emitters : List Emitter
  pub last_block : Option ℕ
  pub calls : List KeyCall
  pub asked : ℕ

abbrev pub Fetching : Type 0 → Type 0
Fetching A = Exec SdkError BlockchainObserver A

-- `filter.key === 'undefined' || filter.key === key`
abbrev pub is_wanted : Option Text → Text → Bool
is_wanted none key = false
is_wanted (some wanted) key = wanted == codes "undefined" || wanted == key

-- `emit`
unfoldable pub emit : Text → KeyArgs → List Listener → List KeyCall
emit event_type args listeners =
    map (λ l. record { callback = l.callback; args = args })
      (filter (λ l. l.event_type == event_type) listeners)

module _ (node : EventNode) where
  -- `parseArgs`
  unfoldable pub parse_args : Text → Log → Result SdkError KeyArgs
  parse_args event_type event =
      if event.topic == node.topic_of event_type
      then ok (record { key = to_lower_case event.key; purpose = event.purpose })
      else err (thrown (codes "Not supported event with topic: " ++ event.topic))

  -- the `if` of `fetchEventsOfType`
  unfoldable pub notify : Text → Emitter → KeyArgs → Fetching (Unit {0})
  notify event_type emitter args = modify (λ o.
      if is_wanted emitter.filter.key args.key
      then record o { calls = o.calls ++ emit event_type args emitter.listeners }
      else o)

  -- the inner loop of `fetchEventsOfType`
  unfoldable pub deliver : Text → Emitter → List Log → Fetching (Unit {0})
  deliver event_type emitter [] = pure tt
  deliver event_type emitter (event ∷ events) = do
    args ← lift (parse_args event_type event)
    notify event_type emitter args
    deliver event_type emitter events

  -- `getLogs` of BlockchainService
  unfoldable pub get_logs : Text → Filter → Fetching (List Log)
  get_logs event_type f o = (
    node.get_logs o.asked o.last_block f.contract_address (node.topic_of event_type),
    record o { asked = suc o.asked },
  )

  -- the outer loop of `fetchEventsOfType`
  unfoldable pub fetch_for : Text → List Emitter → Fetching (Unit {0})
  fetch_for event_type [] = pure tt
  fetch_for event_type (emitter ∷ emitters) = do
    events ← get_logs event_type emitter.filter
    deliver event_type emitter events
    fetch_for event_type emitters

  -- `fetchEventsOfType`
  unfoldable pub fetch_events_of_type : Text → Fetching (Unit {0})
  unfolding fetch_for
  fetch_events_of_type event_type = do
    emitters ← gets (λ o. o.emitters)
    fetch_for event_type emitters

  -- `this.lastBlock = await this.blockchainService.getBlockNumber()`
  unfoldable pub read_block : Fetching (Unit {0})
  read_block o = elim (node.get_block_number o.asked) [
    | err x ↦ (err x, record o { asked = suc o.asked })
    | ok n ↦ (ok tt, record o { asked = suc o.asked; last_block = some n })
  ]

  -- `fetchEvents`, which is `tick`
  unfoldable pub fetch_events : Fetching (Unit {0})
  unfolding fetch_events_of_type read_block
  fetch_events = do
    fetch_events_of_type (codes "KeyAdded")
    fetch_events_of_type (codes "KeyRemoved")
    read_block

  -- the first line of `start`, before the loop of ObserverRunner
  unfoldable pub prepare : Fetching (Unit {0})
  unfolding read_block
  prepare = read_block
