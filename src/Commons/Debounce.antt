-- ===== src/Commons/Debounce.antt =====
-- core/utils/debounce.ts, and the debounced call of core/services/SuggestionsService.ts: a function
-- that is called at once no more, but when no call came for a while.
pub mod Spacing
use universal_login_sdk.Prelude.{ℕ, ◌+◌, ◌≤◌, ◌≡◌, Option, none, some, List, [], ◌∷◌, Text}

-- A timer that is set: the arguments of its call, and when it is due.
pub record Timer (A : Type 0) : Type 0 where
  pub args : A
  pub due : ℕ

-- A call of the function, at a time.
pub record Ran (A : Type 0) : Type 0 where
  pub args : A
  pub at : ℕ

-- `timeoutId`, and the calls of `func` that were made, last first.
pub record Debounced (A : Type 0) : Type 0 where
  pub now : ℕ
  pub timeout : Option (Timer A)
  pub ran : List (Ran A)

module _ {A : Type 0} (wait_milliseconds : ℕ) where
  -- The returned function: a timer that is set is cleared, and another one is set.
  unfoldable pub call : A → Debounced A → Debounced A
  call args s = record s {
    timeout = some (record { args = args; due = s.now + wait_milliseconds });
  }

  -- `doLater`
  unfoldable pub do_later : Timer A → Debounced A → Debounced A
  do_later timer s = record s {
    timeout = none;
    ran = record { args = timer.args; at = s.now } ∷ s.ran;
  }

  -- What may happen: a call comes, time passes, or a timer that is due fires, at once or later.
  pub data Step (s s' : Debounced A) : Type 0 where
    called : (args : A) → s' ≡ call args s → Step s s'
    passed : (ms : ℕ) → s' ≡ record s { now = s.now + ms } → Step s s'
    fired :
        (timer : Timer A)
        → s.timeout ≡ some timer
        → timer.due ≤ s.now
        → s' ≡ do_later timer s
        → Step s s'

  pub data Run (s : Debounced A) : Debounced A → Type 0 where
    here : Run s s
    then : {s' s'' : Debounced A} → Run s s' → Step s' s'' → Run s s''

-- `debounce` before any call
abbrev pub fresh : {A : Type 0} → ℕ → Debounced A
fresh now = record { now = now; timeout = none; ran = [] }

-- `getSuggestions` of SuggestionsService, for a name and a callback
unfoldable pub request_suggestions :
    {C : Type 0} (debounce_time : ℕ) → Text → C → Debounced (Text × C) → Debounced (Text × C)
unfolding call
request_suggestions debounce_time name callback = call debounce_time (name, callback)
