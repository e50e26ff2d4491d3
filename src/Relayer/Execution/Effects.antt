-- ===== src/Relayer/Execution/Effects.antt =====
-- What an execution checks before anything is sent, and what it leaves as it was.
use universal_login_sdk.Prelude.{
  Result-cases, ℕ, ◌≤◌, ◌≡◌, ◌⊎◌, inl, inr, true, false, List, Text, ◌==◌, leb, any, arith, ok, err,
  Bool-cases,
}
use universal_login_sdk.Commons.Ethers.{Ethers}
use universal_login_sdk.Commons.Message.{SignedMessage}
use universal_login_sdk.Relayer.Errors.{
  Exception, invalid_contract, invalid_proxy, not_enough_tokens, not_enough_gas,
}
use universal_login_sdk.Relayer.Execution.{
  Transaction, Node, World, ether_address, is_contract_exist, is_contract, has_enough_token,
  ensure_enough_token, ensure_enough_gas, ensure_correct_proxy, validate, token_enough,
  ether_enough,
}

-- What the wallet holds of the currency of the message's gas.
pub IsPaidFrom : Node → SignedMessage → ℕ → Type 0
IsPaidFrom node message balance =
    (((message.gas_token == ether_address) ≡ true)
      × (node.chain.get_balance message.from ≡ ok balance))
    ⊎ (((message.gas_token == ether_address) ≡ false)
        × (node.chain.balance_of message.gas_token message.from ≡ ok balance))

-- The account that pays for the gas holds the limit, in ether or in the token.
pub record IsFunded (node : Node) (message : SignedMessage) : Type 0 where
  pub balance : ℕ
  pub held : IsPaidFrom node message balance
  pub covered : message.gas_limit ≤ balance

pub record IsListed (e : Ethers) (node : Node) (white_list : List Text) (from : Text) : Type 0 where
  pub bytecode : Text
  pub deployed : node.chain.get_code from ≡ ok bytecode
  pub listed : any (λ h. h == e.keccak256 bytecode) white_list ≡ true

pub record IsAffordable (node : Node) (payer : Text) (message : SignedMessage)
    (transaction : Transaction) : Type 0 where
  pub estimate : ℕ
  pub estimated : node.estimate_gas transaction payer ≡ ok estimate
  pub affordable : estimate ≤ message.gas_limit

module _ (e : Ethers) (node : Node) (white_list : List Text) (payer : Text) where
  -- What `validate` has checked when it returns.
  pub record IsValid (message : SignedMessage) (transaction : Transaction) : Type 0 where
    pub listed : IsListed e node white_list message.from
    pub funded : IsFunded node message
    pub affordable : IsAffordable node payer message transaction

  proxy_cases :
      (from : Text) (w : World)
      → ((x : Exception) × (ensure_correct_proxy e node white_list payer from w ≡ (err x, w)))
        ⊎ ((ensure_correct_proxy e node white_list payer from w ≡ (ok tt, w))
            × IsListed e node white_list from)
  unfolding ensure_correct_proxy
  proxy_cases from w = elim (Result-cases (node.chain.get_code from)) [
    | inl (x, e1) ↦ inl (x, ground arith)
    | inr (bytecode, e1) ↦ elim (Bool-cases (any (λ h. h == e.keccak256 bytecode) white_list)) [
      | inl e2 ↦ inr (ground arith, record { bytecode = bytecode; deployed = e1; listed = e2 })
      | inr e2 ↦ inl (invalid_proxy from (e.keccak256 bytecode) white_list, ground arith)
    ]
  ]

  gas_cases :
      (message : SignedMessage) (transaction : Transaction) (w : World)
      → ((x : Exception) × (ensure_enough_gas e node payer transaction message w ≡ (err x, w)))
        ⊎ ((ensure_enough_gas e node payer transaction message w ≡ (ok tt, w))
            × IsAffordable node payer message transaction)
  unfolding ensure_enough_gas
  gas_cases message transaction w = elim (Result-cases (node.estimate_gas transaction payer)) [
    | inl (x, e1) ↦ inl (x, ground arith)
    | inr (estimate, e1) ↦ elim (Bool-cases (leb estimate message.gas_limit)) [
      | inl e2 ↦
          inr (
            ground arith,
            record { estimate = estimate; estimated = e1; affordable = ground arith },
          )
      | inr e2 ↦ inl (not_enough_gas, ground arith)
    ]
  ]

  -- The answer compares the limit with the balance that pays for it.
  enough_cases :
      (message : SignedMessage) (w : World)
      → let run = has_enough_token e node message.gas_token message.from message.gas_limit w in
        ((x : Exception) × (run ≡ (err x, w)))
        ⊎ ((balance : ℕ) × IsPaidFrom node message balance
            × (run ≡ (ok (leb message.gas_limit balance), w)))
  unfolding IsPaidFrom has_enough_token is_contract token_enough ether_enough
  enough_cases message w = elim (Bool-cases (message.gas_token == ether_address)) [
    | inl e1 ↦ elim (Result-cases (node.chain.get_balance message.from)) [
      | inl (x, e2) ↦ inl (x, ground arith)
      | inr (balance, e2) ↦ inr (balance, inl (e1, e2), ground arith)
    ]
    | inr e1 ↦ elim (Result-cases (node.chain.get_code message.gas_token)) [
      | inl (x, e2) ↦ inl (x, ground arith)
      | inr (bytecode, e2) ↦ elim (Result-cases (is_contract_exist bytecode)) [
        | inl (x, e3) ↦ inl (x, ground arith)
        | inr (exists, e3) ↦ elim (Bool-cases exists) [
          | inr e4 ↦ inl (invalid_contract message.gas_token, ground arith)
          | inl e4 ↦ elim (Result-cases (node.chain.balance_of message.gas_token message.from)) [
            | inl (x, e5) ↦ inl (x, ground arith)
            | inr (balance, e5) ↦ inr (balance, inr (e1, e5), ground arith)
          ]
        ]
      ]
    ]
  ]

  token_cases :
      (message : SignedMessage) (w : World)
      → ((x : Exception) × (ensure_enough_token e node message w ≡ (err x, w)))
        ⊎ ((ensure_enough_token e node message w ≡ (ok tt, w)) × IsFunded node message)
  unfolding ensure_enough_token
  token_cases message w = elim (enough_cases message w) [
    | inl (x, e1) ↦ inl (x, ground arith)
    | inr (balance, held, e1) ↦ elim (Bool-cases (leb message.gas_limit balance)) [
      | inl e2 ↦
          inr (ground arith, record { balance = balance; held = held; covered = ground arith })
      | inr e2 ↦ inl (not_enough_tokens, ground arith)
    ]
  ]

  -- A validation has no effect, and passes where all three checks do.
  pub validate_cases :
      (message : SignedMessage) (transaction : Transaction) (w : World)
      → let run = validate e node white_list payer message transaction w in
        ((x : Exception) × (run ≡ (err x, w))) ⊎ ((run ≡ (ok tt, w)) × IsValid message transaction)
  unfolding validate
  validate_cases message transaction w = elim (proxy_cases message.from w) [
    | inl (x, e1) ↦ inl (x, ground arith)
    | inr (e1, listed) ↦ elim (token_cases message w) [
      | inl (x, e2) ↦ inl (x, ground arith)
      | inr (e2, funded) ↦ elim (gas_cases message transaction w) [
        | inl (x, e3) ↦ inl (x, ground arith)
        | inr (e3, affordable) ↦
            inr (ground arith, record { listed = listed; funded = funded; affordable = affordable })
      ]
    ]
  ]
