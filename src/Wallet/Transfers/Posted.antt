-- ===== src/Wallet/Transfers/Posted.antt =====
-- What a transfer of ether hands to the relayer.
use universal_login_sdk.Prelude.{
  Result-cases, ℕ, ◌<◌, ◌≡◌, ◌∙◌, refl, inl, inr, true, Option, some, List, ◌∷◌, Text, codes, ◌==◌,
  ==_iff, Result, ok, arith, ap, subst, sym,
}
use universal_login_sdk.Commons.Ethers.{Ethers, RecoversSigner}
use universal_login_sdk.Commons.Json.{Json}
use universal_login_sdk.Commons.Message.{SignedMessage, message_hash_of, is_hashable}
use universal_login_sdk.Commons.Signing.{PartialMessage, spread, empty_message, unsigned}
use universal_login_sdk.Wallet.{WalletError, AnyWallet, contract_address_of, private_key_of}
use universal_login_sdk.Wallet.Tokens.{TokenDetails, ether_native_token}
use universal_login_sdk.Wallet.Transfers.{
  TransferDetails, Encoding, by_sdk, ether_message, transfer_ether, transfer_from, transfer,
}
use universal_login_sdk.Sdk.RelayerApi.{Net}
use universal_login_sdk.Sdk.Retry.Asked.{Asked}
use universal_login_sdk.Sdk.Client.{Client, Provider, Using, nonce_of, completed, execute}
use universal_login_sdk.Sdk.Client.Posting.{IsGet, posted}
use universal_login_sdk.Sdk.Client.Sending.{execute-posted}

by_sdk-state : {A : Type 0} (call : Using A) (c : Client) → (by_sdk call c).1 ≡ (call c).1
unfolding by_sdk
by_sdk-state call c = elim (Result-cases (call c).0) [
  | inl (x, e1) ↦ ground arith
  | inr (a, e1) ↦ ground arith
]

module _ (encoding : Encoding) (tokens : List TokenDetails) (e : Ethers) (net : Net)
    (base_url : Text) (provider : Provider) (options : PartialMessage) where
  transfer_ether-state :
      (wallet : AnyWallet) (details : TransferDetails) (value : ℕ) (c : Client)
      → encoding.parse_ether details.amount ≡ ok value
      → (transfer_ether encoding tokens e net base_url provider options wallet details c).1
        ≡ (execute e net base_url provider options
            (ether_message wallet details.to value)
            (private_key_of wallet)
            c).1
  unfolding transfer_ether by_sdk
  transfer_ether-state wallet details value c amount =
      elim (Result-cases
        (execute e net base_url provider options (ether_message wallet details.to value)
          (private_key_of wallet) c).0) [ inl (x, e1) ↦ ground arith | inr (a, e1) ↦ ground arith ]

  transfer_from-ether :
      (wallet : AnyWallet) (details : TransferDetails) (c : Client)
      → details.currency ≡ codes "ETH"
      → transfer_from encoding tokens e net base_url provider options wallet details c
        ≡ transfer_ether encoding tokens e net base_url provider options wallet details c
  unfolding transfer_from
  transfer_from-ether wallet details c ether =
      let same : (details.currency == codes "ETH") ≡ true =
        (==_iff details.currency (codes "ETH")).1 ether in
      rw same

  -- Where a wallet with a private key that is one is held, the currency is ether, its amount is read
  -- and more than nothing, the wallet's nonce is known, ethers takes a hash of the message and recovers
  -- signers, a transfer posts one message, once, and then makes five requests at
  -- most, which only ask. The message sends this amount from the wallet's contract to the address,
  -- pays the relayer in ether, and is signed with the wallet's key.
  pub transfer-posted :
      (wallet : AnyWallet) (details : TransferDetails) (value : ℕ) (nonce : Text) (c : Client)
      → RecoversSigner e
      → e.is_private_key (private_key_of wallet) ≡ true
      → details.currency ≡ codes "ETH"
      → 0 < value
      → encoding.parse_ether details.amount ≡ ok value
      → (nonce_of e net base_url provider options
          (ether_message wallet details.to value)
          (private_key_of wallet)
          c).0
        ≡ ok nonce
      → is_hashable e (
          unsigned
            (spread empty_message (
              completed e net base_url provider options
                (ether_message wallet details.to value)
                nonce))
            (contract_address_of wallet))
        ≡ true
      → (m : SignedMessage) × Asked IsGet 5
          (posted e net base_url provider options m ∷ c.line.requests)
          (transfer encoding tokens e net base_url provider options
            (some wallet)
            details
            c).1.line.requests
        × (m.from ≡ contract_address_of wallet)
        × (m.to ≡ details.to)
        × (m.value ≡ value)
        × (m.gas_token ≡ ether_native_token.address)
        × (e.verify_message (e.arrayify (message_hash_of e m)) m.signature
            ≡ some (e.wallet_address (private_key_of wallet)))
  unfolding transfer ether_message
  transfer-posted wallet details value nonce c recovers key ether positive amount known hashable =
      let (m, asked, _, verified, (token, _, to, from, _, _, _, amount_sent)) =
        execute-posted e net base_url provider options (ether_message wallet details.to value)
          (private_key_of wallet) nonce (contract_address_of wallet) c recovers key refl known
          hashable in
      let same =
        ap (λ (r : Result WalletError (Option Json) × Client). r.1)
          (transfer_from-ether wallet details c ether)
        ∙ transfer_ether-state wallet details value c amount in
      (
        m,
        subst
            (λ (v : Client).
              Asked IsGet 5 (posted e net base_url provider options m ∷ c.line.requests)
                v.line.requests)
            (sym same) asked,
        from,
        to,
        amount_sent,
        token,
        verified,
      )
