-- ===== src/Sdk/Client/Lifecycle/Stranded.antt =====
-- When finalizeAndStop of the SDK does not return.
use universal_login_sdk.Prelude.{ℕ, ◌+◌, ◌≡◌, List, [], ◌∷◌, ok, err, arith, refl, ◌∙◌}
use universal_login_sdk.Sdk.DeploymentObserver.{running}
use universal_login_sdk.Sdk.Runner.{Runner, Event, step}
use universal_login_sdk.Sdk.Runner
use universal_login_sdk.Sdk.Runner.Stopping.{IsStuck}
use universal_login_sdk.Sdk.Client.Lifecycle.{
  Observers, Happening, start_called, stop_called, finalize_called, in_relayer, in_blockchain,
  happen, happen_all, start, finalize_and_stop, start_blockchain,
}

-- An event that is no call.
abbrev pub IsEnd : Event → Type 0
IsEnd Event.start_called = ⊥
IsEnd Event.stop_called = ⊥
IsEnd Event.finalize_called = ⊥
IsEnd _ = Unit

-- The observers are only called by the SDK, and its `stop` is not.
abbrev pub NeverStops : List Happening → Type 0
NeverStops [] = Unit
NeverStops (start_called _ ∷ hs) = NeverStops hs
NeverStops (stop_called ∷ hs) = ⊥
NeverStops (finalize_called ∷ hs) = NeverStops hs
NeverStops (in_relayer e ∷ hs) = IsEnd e × NeverStops hs
NeverStops (in_blockchain e ∷ hs) = IsEnd e × NeverStops hs

-- The relayer's observer cannot end, and the other one runs.
pub record IsStranded (base : ℕ) (s : Observers) : Type 0 where
  pub relayer_stuck : IsStuck base s.relayer
  pub blockchain_runs : s.blockchain.state ≡ running
  pub not_asked : s.blockchain.waiting ≡ 0

relayer-end :
    (base : ℕ) (e : Event) (r : Runner) → IsEnd e → IsStuck base r → IsStuck base (step e r)
unfolding step
relayer-end base Event.start_called r never s = elim never [ ]
relayer-end base Event.stop_called r never s = elim never [ ]
relayer-end base Event.finalize_called r never s = elim never [ ]
relayer-end base Event.tick_returned r never s = ground arith
relayer-end base Event.tick_threw r never s = ground arith
relayer-end base Event.timer_fired r never s = ground arith
relayer-end base Event.wait_ended r never s = ground arith

blockchain-end :
    (e : Event) (r : Runner)
    → IsEnd e
    → r.state ≡ running
    → r.waiting ≡ 0
    → ((step e r).state ≡ running) × ((step e r).waiting ≡ 0) × ((step e r).returned ≡ r.returned)
unfolding step
blockchain-end Event.start_called r never s w = elim never [ ]
blockchain-end Event.stop_called r never s w = elim never [ ]
blockchain-end Event.finalize_called r never s w = elim never [ ]
blockchain-end Event.tick_returned r never s w = ground arith
blockchain-end Event.tick_threw r never s w = ground arith
blockchain-end Event.timer_fired r never s w = ground arith
blockchain-end Event.wait_ended r never s w = ground arith

-- What is kept by every happening but a call of `stop`.
happen-IsStranded :
    (base : ℕ) (h : Happening) (hs : List Happening) (s : Observers)
    → NeverStops (h ∷ hs)
    → IsStranded base s
    → IsStranded base (happen h s)
      × ((happen h s).blockchain.returned ≡ s.blockchain.returned)
      × NeverStops hs
unfolding happen start start_blockchain Runner.start Runner.enter_loop Runner.finalize_and_stop
happen-IsStranded base (start_called (ok n)) hs s never k =
    let k1 = k.relayer_stuck in (ground arith, ground arith, never)
happen-IsStranded base (start_called (err x)) hs s never k =
    let k1 = k.relayer_stuck in (ground arith, ground arith, never)
happen-IsStranded base stop_called hs s never k = elim never [ ]
happen-IsStranded base finalize_called hs s never k =
    let k1 = k.relayer_stuck in (ground arith, ground arith, never)
happen-IsStranded base (in_relayer e) hs s (end, never) k =
    let k1 = k.relayer_stuck in
    let k2 = relayer-end base e s.relayer end k1 in (ground arith, ground arith, never)
happen-IsStranded base (in_blockchain e) hs s (end, never) k =
    let k2 = blockchain-end e s.blockchain end k.blockchain_runs k.not_asked in
    let k1 = k.relayer_stuck in (ground arith, ground arith, never)

happen_all-IsStranded_from :
    (base : ℕ) (hs : List Happening) (s : Observers)
    → NeverStops hs
    → IsStranded base s
    → IsStranded base (happen_all hs s)
      × ((happen_all hs s).blockchain.returned ≡ s.blockchain.returned)
unfolding happen_all
happen_all-IsStranded_from base [] s never k = (k, refl)
happen_all-IsStranded_from base (h ∷ hs) s never k =
    let (k', same, never') = happen-IsStranded base h hs s never k in
    let (k2, same') = happen_all-IsStranded_from base hs (happen h s) never' k' in
    (k2, same' ∙ same)

finalize-IsStranded :
    (s : Observers)
    → s.relayer.ticking + s.relayer.sleeping ≡ 0
    → s.blockchain.state ≡ running
    → s.blockchain.waiting ≡ 0
    → IsStranded s.relayer.returned (happen finalize_called s)
unfolding happen finalize_and_stop Runner.finalize_and_stop
finalize-IsStranded s no_loop runs unasked = ground arith

-- Where no loop of the relayer's observer is left, as after a tick that threw, and the other observer
-- runs, with no call of finalizeAndStop on it, finalizeAndStop of the SDK never asks the other observer
-- to stop, which runs on: whatever ends, and whatever is called but `stop`, a further start too.
pub happen_all-IsStranded :
    (hs : List Happening) (s : Observers)
    → s.relayer.ticking + s.relayer.sleeping ≡ 0
    → s.blockchain.state ≡ running
    → s.blockchain.waiting ≡ 0
    → NeverStops hs
    → ((happen_all (finalize_called ∷ hs) s).blockchain.returned ≡ s.blockchain.returned)
      × IsStranded s.relayer.returned (happen_all (finalize_called ∷ hs) s)
unfolding happen_all
happen_all-IsStranded hs s no_loop runs unasked never =
    let (k, same) =
      happen_all-IsStranded_from s.relayer.returned hs (happen finalize_called s) never
        (finalize-IsStranded s no_loop runs unasked) in
    (same, k)
