-- ===== src/Sdk/Client/Sending.antt =====
-- What the execution of a message sends to the relayer.
use universal_login_sdk.Prelude.{
  Result-cases, ◌≡◌, ◌∙◌, refl, inl, inr, ◌⊎◌, true, Option, none, some, [], ◌∷◌, Text, codes,
  Result, ok, arith, ap, subst, sym,
}
use universal_login_sdk.Commons.Ethers.{Ethers, RecoversSigner}
use universal_login_sdk.Commons.Json.{Json}
use universal_login_sdk.Commons.Message.{SignedMessage, message_hash_of, is_hashable}
use universal_login_sdk.Commons.Signing.{
  PartialMessage, create_signed_message, spread, or_else, or_default, empty_message, unsigned,
  signed,
}
use universal_login_sdk.Commons.Signing.Verified.{signed-verify, create_signed_message_lem}
use universal_login_sdk.Sdk.Errors.{SdkError}
use universal_login_sdk.Sdk.RelayerApi.{get, post, HttpRequest, Net, Line, Api, http, catch_wrapped}
use universal_login_sdk.Sdk.RelayerApi
use universal_login_sdk.Sdk.Retry.Asked.{Asked}
use universal_login_sdk.Sdk.Values.{read}
use universal_login_sdk.Sdk.Client.{
  Client, Provider, message_json, nonce_of, completed, settled, execute,
}
use universal_login_sdk.Sdk.Client.Posting.{
  IsGet, posted, posted-line, nonce_of-state, settled-Asked,
}

-- What is given of a value.
abbrev pub Given : {A : Type 0} → Option A → A → Type 0
Given none a = Unit {0}
Given (some b) a = a ≡ b

-- Every property that a caller gives, but for the nonce, is in the message.
abbrev pub Carries : PartialMessage → SignedMessage → Type 0
Carries message m =
    Given message.gas_token m.gas_token
    × Given message.operation_type m.operation_type
    × Given message.to m.to
    × Given message.from m.from
    × Given message.gas_limit m.gas_limit
    × Given message.gas_price m.gas_price
    × Given message.data_field m.data_field
    × Given message.value m.value

Given-default :
    {A : Type 0} (given by_default empty : Option A) (a : A)
    → Given given (or_default (or_else (or_else given by_default) empty) a)
Given-default none by_default empty a = tt
Given-default (some b) by_default empty a = refl

module _ (e : Ethers) (net : Net) (base_url : Text) (provider : Provider)
    (default_payment_options : PartialMessage) where
  -- Once a message is signed, it is posted, and then nothing is sent, or its status is waited for.
  execute_cases :
      (message : PartialMessage) (private_key nonce : Text) (m : SignedMessage) (c : Client)
      → (nonce_of e net base_url provider default_payment_options message private_key c).0
        ≡ ok nonce
      → create_signed_message e
          (completed e net base_url provider default_payment_options message nonce)
          private_key
        ≡ some m
      → let c' =
          (nonce_of e net base_url provider default_payment_options message private_key c).1 in
        let line = (RelayerApi.execute net base_url (message_json m) c'.line).1 in
        ((execute e net base_url provider default_payment_options message private_key c).1.line
          ≡ line)
        ⊎ ((hash : Option Json) × (status : Option Json) × (execute e net base_url provider
                default_payment_options message private_key c
              ≡ settled e net base_url provider default_payment_options hash status
                  (record c' { line = line })))
  unfolding execute
  execute_cases message private_key nonce m c e0 e1 =
      let c' : Client =
        (nonce_of e net base_url provider default_payment_options message private_key c).1 in
      elim (Result-cases (RelayerApi.execute net base_url (message_json m) c'.line).0) [
        | inl (x, e2) ↦ inl (ground arith)
        | inr (result, e2) ↦ elim (Result-cases (read (codes "status") (some result))) [
          | inl (x, e3) ↦ inl (ground arith)
          | inr (status, e3) ↦ elim (Result-cases (read (codes "messageHash") status)) [
            | inl (x, e4) ↦ inl (ground arith)
            | inr (hash, e4) ↦ inr (hash, status, ground arith)
          ]
        ]
      ]

  execute-Asked :
      (message : PartialMessage) (private_key nonce : Text) (m : SignedMessage) (c : Client)
      → (nonce_of e net base_url provider default_payment_options message private_key c).0
        ≡ ok nonce
      → create_signed_message e
          (completed e net base_url provider default_payment_options message nonce)
          private_key
        ≡ some m
      → Asked IsGet 5
          (posted e net base_url provider default_payment_options m ∷ c.line.requests)
          (execute e net base_url provider default_payment_options message private_key
            c).1.line.requests
  execute-Asked message private_key nonce m c e0 made =
      let c' : Client =
        (nonce_of e net base_url provider default_payment_options message private_key c).1 in
      let line : Line = (RelayerApi.execute net base_url (message_json m) c'.line).1 in
      let sent : line.requests
          ≡ posted e net base_url provider default_payment_options m ∷ c.line.requests =
        posted-line e net base_url provider default_payment_options m c'.line
        ∙ ap
            (λ (v : Client).
              posted e net base_url provider default_payment_options m ∷ v.line.requests)
            (nonce_of-state e net base_url provider default_payment_options message private_key
              c) in
      elim (execute_cases message private_key nonce m c e0 made) [
        | inl same ↦ ([], ap (λ (l : Line). l.requests) same ∙ sent, tt, omega arith)
        | inr (hash, status, same) ↦
            subst
              (λ (r : Result SdkError (Option Json) × Client).
                Asked IsGet 5
                  (posted e net base_url provider default_payment_options m ∷ c.line.requests)
                  r.1.line.requests)
              (sym same)
              (subst
                (λ before.
                  Asked IsGet 5 before
                    (settled e net base_url provider default_payment_options hash status
                      (record c' { line = line })).1.line.requests)
                sent
                (settled-Asked e net base_url provider default_payment_options hash status
                  (record c' { line = line })))
      ]

  -- Where a message has a sender, its nonce is known, the private key is one, and ethers takes a hash
  -- of the message with its defaults, `execute` posts exactly one message, once,
  -- and then makes five requests at most, which only ask. The message is that of the caller with
  -- this nonce, and its signature recovers to the address of the private key.
  pub execute-posted :
      (message : PartialMessage) (private_key nonce from : Text) (c : Client)
      → RecoversSigner e
      → e.is_private_key private_key ≡ true
      → message.from ≡ some from
      → (nonce_of e net base_url provider default_payment_options message private_key c).0
        ≡ ok nonce
      → is_hashable e (
          unsigned
            (spread empty_message
              (completed e net base_url provider default_payment_options message nonce))
            from)
        ≡ true
      → (m : SignedMessage) × Asked IsGet 5
          (posted e net base_url provider default_payment_options m ∷ c.line.requests)
          (execute e net base_url provider default_payment_options message private_key
            c).1.line.requests
        × (m.nonce ≡ nonce)
        × (e.verify_message (e.arrayify (message_hash_of e m)) m.signature
            ≡ some (e.wallet_address private_key))
        × Carries message m
  execute-posted message private_key nonce from c recovers key sender e0 hashable =
      let whole = completed e net base_url provider default_payment_options message nonce in
      let whole_sender : whole.from ≡ some from =
        ap (λ o. or_else o default_payment_options.from) sender in
      let m = signed e private_key (unsigned (spread empty_message whole) from) in
      let made = create_signed_message_lem e whole private_key from whole_sender key hashable in
      let verified =
        signed-verify e private_key (unsigned (spread empty_message whole) from) recovers key in
      (
        m,
        execute-Asked message private_key nonce m c e0 made,
        refl,
        verified,
        (
          Given-default message.gas_token default_payment_options.gas_token empty_message.gas_token
              [],
          Given-default message.operation_type default_payment_options.operation_type
              empty_message.operation_type 0,
          Given-default message.to default_payment_options.to empty_message.to [],
          subst (λ o. Given o from) (sym sender) refl,
          Given-default message.gas_limit default_payment_options.gas_limit empty_message.gas_limit
              0,
          Given-default message.gas_price default_payment_options.gas_price empty_message.gas_price
              0,
          Given-default message.data_field default_payment_options.data_field
              empty_message.data_field [],
          Given-default message.value default_payment_options.value empty_message.value 0,
        ),
      )
