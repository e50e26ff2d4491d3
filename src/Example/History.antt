-- ===== src/Example/History.antt =====
-- HistoryService.js of the example application: who pressed its button, asked from the chain again and
-- again. What parseLog reads of a log is in the log; the words for a time depend on when they are made.
pub mod Listed
pub mod Rounds
use universal_login_sdk.Prelude.{
  ℕ, zero, suc, ◌+◌, ◌-◌, Bool, true, false, not, Option, none, some, List, [], ◌∷◌, ◌++◌, Text,
  codes, length, drop, ltb, eqb, map, Result, ok, err, Exec, pure, gets, modify, ◌>>=◌, ◌>>◌,
  if◌then◌else◌,
}
use mathlib.Core.List.{reverse}

pub record Log : Type 0 where
  pub data_field : Text
  pub presser : Text
  pub press_time : ℕ
  pub score : ℕ

-- An entry of `pressers`; a name may become `null`.
pub record Presser : Type 0 where
  pub address : Text
  pub name : Option Text
  pub press_time : Text
  pub score : ℕ
  pub key : Text

-- What the callback is called with.
pub record Shown : Type 0 where
  pub loaded : Bool
  pub events : List Presser
  pub last_click : Text

-- The provider, which may answer otherwise after more questions, and the words for a time, by how many
-- questions were asked then.
pub record Chain : Type 0 where
  pub get_block_number : ℕ → Result Text ℕ
  pub get_logs : ℕ → (from_block : ℕ) → Result Text (List Log)
  pub words : ℕ → ℕ → Text

-- The service, how many questions it asked, and what the callback got, first first.
pub record HistoryService : Type 0 where
  pub running : Bool
  pub pressers : List Presser
  pub asked : ℕ
  pub shown : List Shown

abbrev pub Reading : Type 0 → Type 0
Reading A = Exec Text HistoryService A

abbrev pub new_service : HistoryService
new_service = record { running = false; pressers = []; asked = 0; shown = [] }

-- the block that is asked from
unfoldable pub from_block_of : ℕ → ℕ
from_block_of last_block = if ltb 500000 last_block then last_block - 500000 else 0

-- `unsubscribeAll`
unfoldable pub unsubscribe_all : HistoryService → HistoryService
unsubscribe_all s = record s { running = false }

unfoldable pub last_click_of : List Presser → Text
last_click_of [] = codes "0"
last_click_of (e ∷ events) = e.press_time

module _ (chain : Chain) where
  -- `getEventFormLogs`
  unfoldable pub get_event_form_logs : ℕ → Log → Presser
  get_event_form_logs asked event = record {
    address = event.presser;
    name = some event.presser;
    press_time = chain.words asked event.press_time;
    score = event.score;
    key = event.data_field;
  }

  -- `getEventsFromLogs`
  unfoldable pub get_events_from_logs : List Log → HistoryService → HistoryService
  unfolding get_event_form_logs
  get_events_from_logs events s = record s {
    pressers = s.pressers ++ map (get_event_form_logs s.asked) events;
  }

  -- the questions that are asked of the provider
  unfoldable pub ask : {A : Type 0} → (ℕ → Result Text A) → Reading A
  ask question s = (question s.asked, record s { asked = suc s.asked })

  -- `getPressLogs`
  unfoldable pub get_press_logs : Reading (List Log)
  unfolding ask from_block_of
  get_press_logs = do
    last_block ← ask chain.get_block_number
    ask (λ asked. chain.get_logs asked (from_block_of last_block))

  -- the `if` of `getPressEvents`
  unfoldable pub add_new : List Log → HistoryService → HistoryService
  unfolding get_events_from_logs
  add_new new_events s =
      if eqb (length new_events) (length s.pressers)
      then s
      else get_events_from_logs (drop (length s.pressers) new_events) s

  -- `getPressEvents`
  unfoldable pub get_press_events : Reading (Unit {0})
  unfolding get_press_logs add_new
  get_press_events = do new_events ← get_press_logs; modify (add_new new_events)

  -- `calculateResult`
  unfoldable pub calculate_result : Reading Shown
  unfolding get_press_events last_click_of
  calculate_result = do
    get_press_events
    pressers ← gets (λ s. s.pressers)
    pure (record {
      loaded = true;
      events = reverse pressers;
      last_click = last_click_of (reverse pressers);
    })

  -- One round of `loop`, with a callback that returns, and `unsubscribeAll` called by it or in the sleep
  -- after it, or not.
  unfoldable pub round : Bool → Reading (Unit {0})
  unfolding calculate_result unsubscribe_all
  round unsubscribed = do
    result ← calculate_result
    modify (λ s. record s { shown = s.shown ++ result ∷ [] })
    modify (λ s. if unsubscribed then unsubscribe_all s else s)

  -- `loop`, for as many rounds as there are sleeps that end
  unfoldable pub loop : List Bool → Reading (Unit {0})
  unfolding round
  loop [] = pure tt
  loop (unsubscribed ∷ rest) = do
    round unsubscribed
    running ← gets (λ s. s.running)
    elim running [ true ↦ loop rest | false ↦ pure tt ]

  -- `subscribe`, whose loop is not awaited
  unfoldable pub subscribe : List Bool → HistoryService → HistoryService
  unfolding loop
  subscribe rounds s = (loop rounds (record s { running = true })).1
