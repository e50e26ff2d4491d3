-- ===== src/Relayer/Granting.antt =====
-- http/relayers/TokenGrantingRelayer.ts and DevelopmentRelayer.ts: the listeners that give tokens to
-- wallets which are created, or get keys.
pub mod Amounts
use universal_login_sdk.Prelude.{
  ℕ, ◌*◌, Bool, true, false, Option, none, some, List, [], ◌∷◌, ◌++◌, Text, codes, Result, ok, err,
  Exec, pure, lift, modify, ◌>>=◌, ◌>>◌, if◌then◌else◌,
}
use universal_login_sdk.Relayer.Errors.{Exception}
use universal_login_sdk.Relayer.Execution.{TransactionResponse, Hook, added, keys_added}

pub record Receipt : Type 0 where
  -- whether `status` is truthy
  pub is_mined : Bool
  pub contract_address : Option Text

-- A call of the token contract's `transfer`; the address may be `null`.
pub record TokenTransfer : Type 0 where
  pub to : Option Text
  pub amount : ℕ

-- `{to, value}`
pub record EtherTransfer : Type 0 where
  pub to : Option Text
  pub value : ℕ

-- What the relayer's own wallet did, last first.
pub record Grants : Type 0 where
  pub tokens : List TokenTransfer
  pub ether : List EtherTransfer

abbrev pub Granting : Type 0 → Type 0
Granting A = Exec Exception Grants A

-- The network: the receipt of a transaction that is waited for, the hash of a transfer, which the token
-- contract may refuse, and whether a payment is taken.
pub record Network : Type 0 where
  pub wait_to_be_mined : Text → Result Exception Receipt
  pub transfer : List TokenTransfer → TokenTransfer → Result Exception Text
  pub send_transaction : List EtherTransfer → EtherTransfer → Result Exception (Unit {0})

-- `parseEther` of a whole number
unfoldable pub parse_ether : ℕ → ℕ
parse_ether n = n * 1000000000000000000

module _ (network : Network) where
  -- a listener that gives tokens once its transaction is mined; the transfer is not awaited.
  unfoldable pub grant : (Receipt → Option Text) → ℕ → Text → Granting (Unit {0})
  grant receiver amount hash = do
    receipt ← lift (network.wait_to_be_mined hash)
    (if receipt.is_mined
        then modify (λ g. record g {
          tokens = record { to = receiver receipt; amount = amount } ∷ g.tokens;
        })
        else pure tt)

  -- the listener of 'created' of TokenGrantingRelayer
  unfoldable pub on_created : Text → Granting (Unit {0})
  unfolding grant parse_ether
  on_created hash = grant (λ receipt. receipt.contract_address) (parse_ether 100) hash

  -- the listener of 'added'
  unfoldable pub on_added : TransactionResponse → Granting (Unit {0})
  unfolding grant parse_ether
  on_added transaction = grant (λ receipt. some transaction.to) (parse_ether 5) transaction.hash

  -- the listener of 'keysAdded'
  unfoldable pub on_keys_added : TransactionResponse → Granting (Unit {0})
  unfolding grant parse_ether
  on_keys_added transaction =
      grant (λ receipt. some transaction.to) (parse_ether 15) transaction.hash

  -- the listener of an event that the execution of messages emits
  unfoldable pub on_hook : Hook → Granting (Unit {0})
  unfolding on_added on_keys_added
  on_hook (added transaction) = on_added transaction
  on_hook (keys_added transaction) = on_keys_added transaction

  -- the body of the `if` of DevelopmentRelayer's listener
  unfoldable pub fund : Option Text → Granting (Unit {0})
  unfolding parse_ether
  fund address = do
    let tokens : TokenTransfer = record { to = address; amount = parse_ether 100 }
    hash ← (λ g. (network.transfer g.tokens tokens, g))
    modify (λ g. record g { tokens = tokens ∷ g.tokens })
    lift (network.wait_to_be_mined hash)
    let payment : EtherTransfer = record { to = address; value = parse_ether 100 }
    (λ g. (network.send_transaction g.ether payment, g))
    modify (λ g. record g { ether = payment ∷ g.ether })

  -- the listener of 'created' of DevelopmentRelayer
  unfoldable pub on_created_development : Text → Granting (Unit {0})
  unfolding fund
  on_created_development hash = do
    receipt ← lift (network.wait_to_be_mined hash)
    (if receipt.is_mined then fund receipt.contract_address else pure tt)
