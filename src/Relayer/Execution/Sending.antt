-- ===== src/Relayer/Execution/Sending.antt =====
-- What `executeAndWait` sends, and the tables that it leaves as they were.
use universal_login_sdk.Prelude.{
  Result-cases, ◌≡◌, refl, subst, ◌⊎◌, inl, inr, List, ◌∷◌, Text, ◌==◌, arith, Result, ok, err,
  Bool-cases,
}
use universal_login_sdk.Commons.Ethers.{Ethers}
use universal_login_sdk.Commons.Message.{SignedMessage}
use universal_login_sdk.Relayer.Errors.{Exception}
use universal_login_sdk.Relayer.Database.{AuthorisationRow}
use universal_login_sdk.Relayer.Authorisation.{remove_request}
use universal_login_sdk.Relayer.Calls.{
  Abi, decode_data_for_execute_signed, is_add_key_call, is_add_keys_call, get_key_from_data,
}
use universal_login_sdk.Relayer.Execution.{
  Transaction, TransactionResponse, Node, World, Hook, added, keys_added, message_to_transaction,
  validate, on_transaction_sent, execute_and_wait, remove_request_of_key, emit, report,
  send_transaction,
}
use universal_login_sdk.Relayer.Execution.Effects.{IsValid, validate_cases}

-- The world after a sent transaction was reported.
abbrev reported : World → List AuthorisationRow → List Hook → World
reported w authorisations hooks = record w {
  database = record w.database { authorisations = authorisations };
  hooks = hooks;
}

abbrev with_sent : World → Transaction → World
with_sent w transaction = record w { sent = transaction ∷ w.sent }

module _ (abi : Abi) where
  report_cases :
      (data_text : Text) (s : TransactionResponse) (w : World)
      → (r : Result Exception (Unit {0})) × (rows : List AuthorisationRow) × (hooks : List Hook)
        × (report abi data_text s w ≡ (r, reported w rows hooks))
  unfolding report remove_request_of_key emit remove_request
  report_cases data_text s w = elim (Bool-cases (is_add_key_call abi data_text)) [
    | inl e1 ↦ elim (Result-cases (get_key_from_data abi data_text)) [
      | inl (x, e2) ↦ (err x, w.database.authorisations, w.hooks, ground arith)
      | inr (key, e2) ↦ (
        ok tt,
        (remove_request s.to key w.database).1.authorisations,
        added s ∷ w.hooks,
        ground arith,
      )
    ]
    | inr e1 ↦ elim (Bool-cases (is_add_keys_call abi data_text)) [
      | inl e2 ↦ (ok tt, w.database.authorisations, keys_added s ∷ w.hooks, ground arith)
      | inr e2 ↦ (ok tt, w.database.authorisations, w.hooks, ground arith)
    ]
  ]

  on_transaction_sent_cases :
      (s : TransactionResponse) (w : World)
      → (r : Result Exception (Unit {0})) × (rows : List AuthorisationRow) × (hooks : List Hook)
        × (on_transaction_sent abi s w ≡ (r, reported w rows hooks))
  unfolding on_transaction_sent
  on_transaction_sent_cases s w =
      elim (Result-cases (decode_data_for_execute_signed abi s.data_field)) [
        | inl (x, e1) ↦ (err x, w.database.authorisations, w.hooks, ground arith)
        | inr (m, e1) ↦ elim (Bool-cases (m.to == s.to)) [
          | inl e2 ↦
              let (r, rows, hooks, e3) = report_cases m.data_field s w in
              (r, rows, hooks, ground arith)
          | inr e2 ↦ (ok tt, w.database.authorisations, w.hooks, ground arith)
        ]
      ]

module _ (e : Ethers) (abi : Abi) (node : Node) (white_list : List Text) (payer : Text) where
  -- How a call of `executeAndWait` ends: it throws and sent nothing, or it sent one transaction,
  -- made of a message that every check passed, and changed nothing else but the requests of devices
  -- and the emitted events.
  pub data Execution (signed : SignedMessage) (w : World)
      : Result Exception TransactionResponse × World → Type 0 where
    refused : (x : Exception) → Execution signed w (err x, w)
    sent :
        (transaction : Transaction) (response : TransactionResponse)
        (r : Result Exception TransactionResponse) (rows : List AuthorisationRow)
        (hooks : List Hook)
        → message_to_transaction abi signed ≡ ok transaction
        → IsValid e node white_list payer signed transaction
        → node.send_transaction w.sent transaction ≡ ok response
        → (r ≡ ok response) ⊎ ((x : Exception) × (r ≡ err x))
        → Execution signed w (r, reported (with_sent w transaction) rows hooks)

  -- What happens after the node took a transaction.
  after_sending :
      (signed : SignedMessage) (w : World) (transaction : Transaction)
      (response : TransactionResponse)
      → message_to_transaction abi signed ≡ ok transaction
      → IsValid e node white_list payer signed transaction
      → validate e node white_list payer signed transaction w ≡ (ok tt, w)
      → node.send_transaction w.sent transaction ≡ ok response
      → Execution signed w (execute_and_wait e abi node white_list payer signed w)
  unfolding execute_and_wait send_transaction
  after_sending signed w transaction response built valid passed taken =
      elim (Result-cases (node.wait_for_transaction response.hash)) [
        | inl (x, e1) ↦ subst (Execution signed w) (ground (arith)) (
            sent transaction response (err x) w.database.authorisations w.hooks built valid taken
              (inr (x, refl)))
        | inr (u, e1) ↦
            let (r, rows, hooks, e2) =
              on_transaction_sent_cases abi response (with_sent w transaction) in
            elim (Result-cases r) [
              | inl (x, e3) ↦
                  subst (Execution signed w) (ground (arith))
                    (sent transaction response (err x) rows hooks built valid taken (inr (x, refl)))
              | inr (v, e3) ↦
                  subst (Execution signed w) (ground (arith)) (
                    sent transaction response (ok response) rows hooks built valid taken (inl refl))
            ]
      ]

  -- Every call of executeAndWait throws with nothing sent, or sends exactly one transaction.
  pub execute_and_wait-Execution :
      (signed : SignedMessage) (w : World)
      → Execution signed w (execute_and_wait e abi node white_list payer signed w)
  unfolding execute_and_wait send_transaction
  execute_and_wait-Execution signed w = elim (Result-cases (message_to_transaction abi signed)) [
    | inl (x, e1) ↦ subst (Execution signed w) (ground arith) (refused x)
    | inr (transaction, e1) ↦ elim (validate_cases e node white_list payer signed transaction w) [
      | inl (x, e2) ↦ subst (Execution signed w) (ground arith) (refused x)
      | inr (e2, valid) ↦ elim (Result-cases (node.send_transaction w.sent transaction)) [
        | inl (x, e3) ↦ subst (Execution signed w) (ground arith) (refused x)
        | inr (response, e3) ↦ after_sending signed w transaction response e1 valid e2 e3
      ]
    ]
  ]
