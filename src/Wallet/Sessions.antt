-- ===== src/Wallet/Sessions.antt =====
-- What a user's session with the wallet can come to.
use universal_login_sdk.Prelude.{
  ◌≡◌, refl, ◌⊎◌, inl, inr, Bool, true, false, Option, none, some, List, [], ◌∷◌, Text, Result, ok,
  err, arith,
}
use universal_login_sdk.Wallet.{
  UserWallet, FutureWallet, AnyWallet, WalletState, WalletError, WalletService, new_service,
  contract_address_of, create_future_wallet, set_future_wallet, set_deployed, connect, disconnect,
  get_name, get_contract_address,
}

-- The calls that change the service.
pub data Call : Type 0 where
  create : Result WalletError FutureWallet → Call
  set_future : FutureWallet → Call
  deployed_as : Text → Call
  connect_to : UserWallet → Call
  leave : Call

-- The service after a call, whether the call returned or threw.
pub after : Call → WalletService → WalletService
after (create answer) s = (create_future_wallet answer s).1
after (set_future w) s = (set_future_wallet w s).1
after (deployed_as name) s = (set_deployed name s).1
after (connect_to w) s = (connect w s).1
after leave s = (disconnect s).1

pub after_all : List Call → WalletService → WalletService
unfolding after
after_all [] s = s
after_all (c ∷ cs) s = after_all cs (after c s)

-- The state tells which kind of wallet is held.
unfoldable pub fits : WalletState → Option AnyWallet → Bool
fits WalletState.state_none none = true
fits WalletState.state_future (some (AnyWallet.future w)) = true
fits WalletState.state_deployed (some (AnyWallet.user w)) = true
fits _ _ = false

abbrev pub IsConsistent : WalletService → Type 0
IsConsistent s = fits s.state s.user_wallet ≡ true

-- What a consistent service holds.
pub fits-cases :
    (state : WalletState) (held : Option AnyWallet)
    → fits state held ≡ true
    → ((state ≡ WalletState.state_none) × (held ≡ none))
      ⊎ (((w : FutureWallet) × (state ≡ WalletState.state_future)
            × (held ≡ some (AnyWallet.future w)))
          ⊎ ((w : UserWallet) × (state ≡ WalletState.state_deployed)
              × (held ≡ some (AnyWallet.user w))))
unfolding fits
fits-cases WalletState.state_none none h = inl (refl, refl)
fits-cases WalletState.state_future (some (AnyWallet.future w)) h = inr (inl (w, refl, refl))
fits-cases WalletState.state_deployed (some (AnyWallet.user w)) h = inr (inr (w, refl, refl))
fits-cases WalletState.state_none (some w) h = absurd (ground arith)
fits-cases WalletState.state_future none h = absurd (ground arith)
fits-cases WalletState.state_future (some (AnyWallet.user w)) h = absurd (ground arith)
fits-cases WalletState.state_deployed none h = absurd (ground arith)
fits-cases WalletState.state_deployed (some (AnyWallet.future w)) h = absurd (ground arith)

-- Whether the call may put another wallet in the place of the one that is held.
abbrev pub leaves : Call → Bool
leaves leave = true
leaves _ = false

-- The address of the wallet that is held.
abbrev pub address_in : WalletService → Option Text
address_in s = elim s.user_wallet [ none ↦ none | some w ↦ some (contract_address_of w) ]

after-IsConsistent : (c : Call) (s : WalletService) → IsConsistent s → IsConsistent (after c s)
unfolding after create_future_wallet set_future_wallet set_deployed connect disconnect fits
after-IsConsistent leave s h = refl
after-IsConsistent (create (ok w)) s h = elim (fits-cases s.state s.user_wallet h) [
  | inl (e1, e2) ↦ ground arith
  | inr (inl (w, e1, e2)) ↦ ground arith
  | inr (inr (w, e1, e2)) ↦ ground arith
]
after-IsConsistent (create (err x)) s h = h
after-IsConsistent (set_future f) s h = elim (fits-cases s.state s.user_wallet h) [
  | inl (e1, e2) ↦ ground arith
  | inr (inl (w, e1, e2)) ↦ ground arith
  | inr (inr (w, e1, e2)) ↦ ground arith
]
after-IsConsistent (deployed_as name) s h = elim (fits-cases s.state s.user_wallet h) [
  | inl (e1, e2) ↦ ground arith
  | inr (inl (w, e1, e2)) ↦ ground arith
  | inr (inr (w, e1, e2)) ↦ ground arith
]
after-IsConsistent (connect_to u) s h = elim (fits-cases s.state s.user_wallet h) [
  | inl (e1, e2) ↦ ground arith
  | inr (inl (w, e1, e2)) ↦ ground arith
  | inr (inr (w, e1, e2)) ↦ ground arith
]

after_all-from :
    (cs : List Call) (s : WalletService) → IsConsistent s → IsConsistent (after_all cs s)
unfolding after_all
after_all-from [] s h = h
after_all-from (c ∷ cs) s h = after_all-from cs (after c s) (after-IsConsistent c s h)

-- Whatever calls a session makes, and whichever of them throw, the state tells whether no wallet, a
-- future wallet or a deployed one is held.
pub after_all-IsConsistent : (cs : List Call) → IsConsistent (after_all cs new_service)
unfolding fits
after_all-IsConsistent cs = after_all-from cs new_service refl

-- A wallet that is held is never replaced by one at another address: only disconnect gives it up.
pub after-address_in :
    (c : Call) (s : WalletService) (address : Text)
    → IsConsistent s
    → leaves c ≡ false
    → address_in s ≡ some address
    → address_in (after c s) ≡ some address
unfolding after create_future_wallet set_future_wallet set_deployed connect
after-address_in leave s address h stays held = absurd (ground arith)
after-address_in (create (ok f)) s address h stays held =
    elim (fits-cases s.state s.user_wallet h) [
      | inl (e1, e2) ↦ ground arith
      | inr (inl (w, e1, e2)) ↦ ground arith
      | inr (inr (w, e1, e2)) ↦ ground arith
    ]
after-address_in (create (err x)) s address h stays held = held
after-address_in (set_future f) s address h stays held = elim (fits-cases s.state s.user_wallet h) [
  | inl (e1, e2) ↦ ground arith
  | inr (inl (w, e1, e2)) ↦ ground arith
  | inr (inr (w, e1, e2)) ↦ ground arith
]
after-address_in (deployed_as name) s address h stays held =
    elim (fits-cases s.state s.user_wallet h) [
      | inl (e1, e2) ↦ ground arith
      | inr (inl (w, e1, e2)) ↦ ground arith
      | inr (inr (w, e1, e2)) ↦ ground arith
    ]
after-address_in (connect_to u) s address h stays held = elim (fits-cases s.state s.user_wallet h) [
  | inl (e1, e2) ↦ ground arith
  | inr (inl (w, e1, e2)) ↦ ground arith
  | inr (inr (w, e1, e2)) ↦ ground arith
]

-- A future wallet that is set as deployed is presented under the given name and at the address that
-- it had.
pub get_name-set_deployed :
    (name : Text) (s : WalletService)
    → IsConsistent s
    → s.state ≡ WalletState.state_future
    → ((set_deployed name s).0 ≡ ok tt)
      × ((get_name (set_deployed name s).1).0 ≡ ok (some name))
      × ((get_contract_address (set_deployed name s).1).0 ≡ (get_contract_address s).0)
unfolding set_deployed get_name get_contract_address
get_name-set_deployed name s h waits = elim (fits-cases s.state s.user_wallet h) [
  | inl (e1, e2) ↦ absurd (ground arith)
  | inr (inl (w, e1, e2)) ↦ (ground arith, ground arith, ground arith)
  | inr (inr (w, e1, e2)) ↦ absurd (ground arith)
]
