-- ===== src/Example/Wallets/Connecting.antt =====
-- Which key the wallet holds once its key was added.
use universal_login_sdk.Prelude.{
  ℕ, suc, ◌<◌, ◌≡◌, refl, ◌∙◌, true, none, some, List, [], ◌∷◌, ◌++◌, Text, codes, eqb, any, ok,
  arith, any-append, All,
}
use universal_login_sdk.Example.Wallets.{
  WalletContract, Subscription, WalletService, subscribe, remove, cancel_subscription, on_key_added,
  connect, key_added, store_wallet,
}

-- The numbers of the subscriptions were all given out before.
abbrev pub IsNumbered : WalletService → Type 0
IsNumbered s = All (λ t. t.handle < s.next_handle) s.subscriptions

-- The subscription that `connect` makes.
abbrev pub made_by_connect : (Text → Text) → Text → WalletService → Subscription
made_by_connect address_of private_key s = record {
  handle = s.next_handle;
  contract_address = s.wallet_contract.address;
  key = address_of private_key;
  greet_mode = some (codes "addKey");
}

module _ (address_of : Text → Text) where
  connect_lem :
      (private_key : Text) (s : WalletService)
      → connect address_of (ok private_key) s ≡ (
        ok tt,
        subscribe
            (address_of private_key)
            (some (codes "addKey"))
            (record s { private_key = some private_key }),
      )
  unfolding connect
  connect_lem private_key s = refl

  any_last :
      (t : Subscription) (ts : List Subscription)
      → any (λ u. eqb u.handle t.handle) (ts ++ t ∷ []) ≡ true
  any_last t ts =
      let split = any-append (λ u. eqb u.handle t.handle) ts (t ∷ []) in ground (arith, split)

  remove_lem : (h : ℕ) (ts : List Subscription) → All (λ t. t.handle < h) ts → remove h ts ≡ ts
  unfolding remove
  remove_lem h [] k = refl
  remove_lem h (t ∷ ts) (k, ks) = let ih = remove_lem h ts ks in ground arith

  remove_last :
      (t : Subscription) (ts : List Subscription)
      → remove t.handle (ts ++ t ∷ []) ≡ remove t.handle ts
  unfolding remove
  remove_last t [] = ground arith
  remove_last t (u ∷ us) = let ih = remove_last t us in ground arith

  -- What a wallet becomes when the key of its service was added.
  abbrev pub with_key : Text → WalletService → WalletContract
  with_key private_key s = record s.wallet_contract { private_key = some private_key }

  -- Once the key that connect asked for is added, the wallet is held and stored with that key, at the
  -- name and address it had, and connect's subscription is gone while all others are kept.
  pub connect-key_added :
      (private_key : Text) (s : WalletService)
      → IsNumbered s
      → let t =
          key_added
            (made_by_connect address_of private_key s)
            (connect address_of (ok private_key) s).1 in
        (t.wallet_contract ≡ with_key private_key s)
        × (t.stored ≡ some (with_key private_key s))
        × (t.subscription ≡ none)
        × (t.subscriptions ≡ s.subscriptions)
  unfolding key_added subscribe on_key_added cancel_subscription store_wallet
  connect-key_added private_key s numbered =
      let here = any_last (made_by_connect address_of private_key s) s.subscriptions in
      let made = connect_lem private_key s in
      let rest =
        remove_last (made_by_connect address_of private_key s) s.subscriptions
        ∙ remove_lem s.next_handle s.subscriptions numbered in
      (ground arith, ground arith, ground arith, ground arith)

  numbered_more :
      (s : WalletService) (private_key : Text) (ts : List Subscription)
      → All (λ t. t.handle < s.next_handle) ts
      → All
          (λ t. t.handle < suc s.next_handle)
          (ts ++ made_by_connect address_of private_key s ∷ [])
  numbered_more s private_key [] k = (omega arith, tt)
  numbered_more s private_key (t ∷ ts) (k, ks) = (omega arith, numbered_more s private_key ts ks)

  -- Where connect is called twice, and then the key of the first call is added, the wallet is held and
  -- stored with the key of the second, which was not added; the subscription of the first call is kept,
  -- and that of the second is gone.
  pub connect-connect :
      (first second : Text) (s : WalletService)
      → IsNumbered s
      → let s1 = (connect address_of (ok first) s).1 in
        let t =
          key_added (made_by_connect address_of first s) (connect address_of (ok second) s1).1 in
        (t.stored ≡ some (with_key second s))
        × (t.subscriptions ≡ s.subscriptions ++ made_by_connect address_of first s ∷ [])
  unfolding key_added subscribe on_key_added cancel_subscription store_wallet
  connect-connect first second s numbered =
      let m1 = made_by_connect address_of first s in
      let s1 : WalletService =
        subscribe (address_of first) (some (codes "addKey"))
          (record s { private_key = some first }) in
      let m2 = made_by_connect address_of second s1 in
      let made = connect_lem first s in
      let made' = connect_lem second s1 in
      let here = any_last m1 s.subscriptions in
      let here' =
        any-append (λ u. eqb u.handle s.next_handle) (s.subscriptions ++ m1 ∷ []) (m2 ∷ []) in
      let rest =
        remove_last m2 (s.subscriptions ++ m1 ∷ [])
        ∙ remove_lem (suc s.next_handle) (s.subscriptions ++ m1 ∷ [])
            (numbered_more s first s.subscriptions numbered) in
      (ground arith, ground arith)
