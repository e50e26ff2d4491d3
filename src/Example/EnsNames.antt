-- ===== src/Example/EnsNames.antt =====
-- EnsNameService.js of the example application: the addresses in the history are replaced by their ENS
-- names, round by round. Nothing is pressed while a round waits for the provider.
pub mod Named
use universal_login_sdk.Prelude.{
  ℕ, suc, Bool, true, false, Option, none, some, List, [], ◌∷◌, Text, codes, starts_with, Result,
  ok, err, Exec, pure, raise, gets, modify, ◌>>=◌, ◌>>◌, if◌then◌else◌,
}
use universal_login_sdk.Example.History.{Presser}

-- The service, the pressers of the history service, and how many names were asked for.
pub record EnsNameService : Type 0 where
  pub running : Bool
  pub is_working : Bool
  pub pressers : List Presser
  pub asked : ℕ

abbrev pub Naming : Type 0 → Type 0
Naming A = Exec Text EnsNameService A

-- what `null.slice` throws
unfoldable pub no_slice : Text
no_slice = codes "Cannot read property 'slice' of null"

-- `unsubscribeAll`
unfoldable pub unsubscribe_all : EnsNameService → EnsNameService
unsubscribe_all s = record s { running = false }

-- `lookupAddress` of the provider, which may answer otherwise after more questions, and answers `null`
-- for an address without a name.
module _ (lookup_address : ℕ → Text → Result Text (Option Text)) where
  -- The body of the loop for one entry: its name, and how many names were asked for.
  unfoldable pub change_name : Option Text → ℕ → Result Text (Option Text) × ℕ
  change_name none asked = (err no_slice, asked)
  change_name (some name) asked =
      if starts_with name (codes "0x")
      then (lookup_address asked name, suc asked)
      else (ok (some name), asked)

  -- What a change makes of the entry, where those after it are done.
  abbrev pub renamed :
      Presser
      → List Presser
      → Result Text (Option Text) × ℕ
      → Result Text (Unit {0}) × List Presser × ℕ
  renamed p rest (ok name, asked) = (ok tt, record p { name = name } ∷ rest, asked)
  renamed p rest (err x, asked) = (err x, p ∷ rest, asked)

  -- The loop of `changePressersName`, from the last entry to the first; what was changed before an
  -- exception stays changed.
  unfoldable pub change_names : List Presser → ℕ → Result Text (Unit {0}) × List Presser × ℕ
  unfolding change_name
  change_names [] asked = (ok tt, [], asked)
  change_names (p ∷ ps) asked =
      let (r, rest, asked') = change_names ps asked in
      elim r [
        | ok _ ↦ renamed p rest (change_name p.name asked')
        | err x ↦ (err x, p ∷ rest, asked')
      ]

  -- `changePressersName`
  unfoldable pub change_pressers_name : Naming (Unit {0})
  unfolding change_names
  change_pressers_name s =
      let (r, ps, asked) = change_names s.pressers s.asked in
      elim r [
        | ok _ ↦ (ok tt, record s { pressers = ps; asked = asked; is_working = false })
        | err x ↦ (err x, record s { pressers = ps; asked = asked })
      ]

  -- One round of `loop`
  unfoldable pub round : Naming (Unit {0})
  unfolding change_pressers_name
  round s =
      if s.is_working then (ok tt, s) else change_pressers_name (record s { is_working = true })

  -- `loop`, with `unsubscribeAll` called in a round or in the sleep after it, or not; for as many rounds
  -- as there are sleeps that end
  unfoldable pub loop : List Bool → Naming (Unit {0})
  unfolding unsubscribe_all
  loop [] = pure tt
  loop (unsubscribed ∷ rest) = do
    round
    modify (λ s. if unsubscribed then unsubscribe_all s else s)
    running ← gets (λ s. s.running)
    elim running [ true ↦ loop rest | false ↦ pure tt ]

  -- `subscribe`, whose loop is not awaited
  unfoldable pub subscribe : List Bool → EnsNameService → EnsNameService
  unfolding loop
  subscribe rounds s = (loop rounds (record s { running = true })).1
