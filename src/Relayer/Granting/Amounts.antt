-- ===== src/Relayer/Granting/Amounts.antt =====
-- What an executed message is granted.
use universal_login_sdk.Prelude.{
  ℕ, ◌≡◌, refl, inl, inr, ◌⊎◌, true, subst, ap, ◌∙◌, Bool-cases, Result-cases, some, List, [], ◌∷◌,
  Text, ◌==◌, ok, arith,
}
use universal_login_sdk.Commons.Ethers.{Ethers}
use universal_login_sdk.Commons.Message.{SignedMessage}
use universal_login_sdk.Relayer.Authorisation.{remove_request}
use universal_login_sdk.Relayer.Calls.{
  Abi, DecodedMessage, decode_data_for_execute_signed, is_add_key_call, is_add_keys_call,
  get_key_from_data,
}
use universal_login_sdk.Relayer.Execution.{
  Transaction, TransactionResponse, Node, World, Hook, added, keys_added, message_to_transaction,
  on_transaction_sent, execute_and_wait, remove_request_of_key, emit, report, send_transaction,
}
use universal_login_sdk.Relayer.Execution.Effects.{validate_cases}
use universal_login_sdk.Relayer.Granting.{
  Network, Receipt, Grants, grant, on_hook, on_added, on_keys_added, parse_ether,
}

module _ (abi : Abi) where
  -- Which events came of a call: none, or one about the transaction, of `addKey` or of `addKeys`.
  abbrev Heard : Text → TransactionResponse → (before after : List Hook) → Type 0
  Heard call s before after =
      (after ≡ before)
      ⊎ (((is_add_key_call abi call ≡ true) × (after ≡ added s ∷ before))
          ⊎ ((is_add_keys_call abi call ≡ true) × (after ≡ keys_added s ∷ before)))

  -- The message that a transaction carries, to the wallet to which the transaction goes.
  abbrev pub IsCarried : TransactionResponse → DecodedMessage → Type 0
  IsCarried s m = (decode_data_for_execute_signed abi s.data_field ≡ ok m) × ((m.to == s.to) ≡ true)

  report-Heard :
      (data_text : Text) (s : TransactionResponse) (w : World)
      → Heard data_text s w.hooks (report abi data_text s w).1.hooks
  unfolding report remove_request_of_key emit remove_request
  report-Heard data_text s w = elim (Bool-cases (is_add_key_call abi data_text)) [
    | inl e1 ↦ elim (Result-cases (get_key_from_data abi data_text)) [
      | inl (x, e2) ↦ inl (ground arith)
      | inr (key, e2) ↦ inr (inl (e1, ground arith))
    ]
    | inr e1 ↦ elim (Bool-cases (is_add_keys_call abi data_text)) [
      | inl e2 ↦ inr (inr (e2, ground arith))
      | inr e2 ↦ inl (ground arith)
    ]
  ]

  on_transaction_sent-Heard :
      (s : TransactionResponse) (w : World)
      → let after = (on_transaction_sent abi s w).1.hooks in
        (after ≡ w.hooks)
        ⊎ ((m : DecodedMessage) × IsCarried s m × Heard m.data_field s w.hooks after)
  unfolding on_transaction_sent
  on_transaction_sent-Heard s w =
      elim (Result-cases (decode_data_for_execute_signed abi s.data_field)) [
        | inl (x, e1) ↦ inl (ground arith)
        | inr (m, e1) ↦ elim (Bool-cases (m.to == s.to)) [
          | inl e2 ↦
              let heard = report-Heard m.data_field s w in
              inr (m, (e1, e2), subst (Heard m.data_field s w.hooks) (ground arith) heard)
          | inr e2 ↦ inl (ground arith)
        ]
      ]

module _ (e : Ethers) (abi : Abi) (node : Node) (white_list : List Text) (payer : Text) where
  -- The transaction of a message, as the node answered it.
  abbrev pub IsSentFor : SignedMessage → World → TransactionResponse → Type 0
  IsSentFor signed w s =
      (transaction : Transaction) × (message_to_transaction abi signed ≡ ok transaction)
      × (node.send_transaction w.sent transaction ≡ ok s)

  -- The events of an execution are about the transaction that it sent.
  execute_and_wait-Heard :
      (signed : SignedMessage) (w : World)
      → let after = (execute_and_wait e abi node white_list payer signed w).1.hooks in
        (after ≡ w.hooks)
        ⊎ ((s : TransactionResponse) × (m : DecodedMessage) × IsSentFor signed w s
            × IsCarried abi s m
            × Heard abi m.data_field s w.hooks after)
  unfolding execute_and_wait send_transaction
  execute_and_wait-Heard signed w = elim (Result-cases (message_to_transaction abi signed)) [
    | inl (x, e1) ↦ inl (ground arith)
    | inr (transaction, e1) ↦ elim (validate_cases e node white_list payer signed transaction w) [
      | inl (x, e2) ↦ inl (ground arith)
      | inr (e2, valid) ↦ elim (Result-cases (node.send_transaction w.sent transaction)) [
        | inl (x, e3) ↦ inl (ground arith)
        | inr (response, e3) ↦ elim (Result-cases (node.wait_for_transaction response.hash)) [
          | inl (x, e4) ↦ inl (ground arith)
          | inr (u, e4) ↦
              let after : World = record w { sent = transaction ∷ w.sent } in
              elim (on_transaction_sent-Heard abi response after) [
                | inl same ↦ inl (ground arith)
                | inr (m, carried, heard) ↦ inr (
                  response,
                  m,
                  (transaction, e1, e3),
                  carried,
                  subst (Heard abi m.data_field response w.hooks) (ground arith) heard,
                )
              ]
        ]
      ]
    ]
  ]

-- A transfer to the wallet that a transaction went to, of five or of fifteen tokens.
abbrev pub granted : TransactionResponse → ℕ → Grants → Grants
granted s amount g = record g {
  tokens = record { to = some s.to; amount = parse_ether amount } ∷ g.tokens;
}

module _ (network : Network) where
  -- What the listeners did after events, last first; what they throw is lost.
  pub after_hooks : List Hook → Grants → Grants
  after_hooks [] g = g
  after_hooks (h ∷ hs) g = (on_hook network h (after_hooks hs g)).1

  -- The transaction's receipt says that it was executed.
  abbrev pub IsMined : TransactionResponse → Type 0
  IsMined s =
      (receipt : Receipt) × (network.wait_to_be_mined s.hash ≡ ok receipt)
      × (receipt.is_mined ≡ true)

  grant_cases :
      (s : TransactionResponse) (amount : ℕ) (g : Grants)
      → let after = (grant network (λ receipt. some s.to) (parse_ether amount) s.hash g).1 in
        (after ≡ g) ⊎ (IsMined s × (after ≡ granted s amount g))
  unfolding grant
  grant_cases s amount g = elim (Result-cases (network.wait_to_be_mined s.hash)) [
    | inl (x, e1) ↦ inl (ground arith)
    | inr (receipt, e1) ↦ elim (Bool-cases receipt.is_mined) [
      | inl e2 ↦ inr ((receipt, e1, e2), ground arith)
      | inr e2 ↦ inl (ground arith)
    ]
  ]

  added_lem :
      (s : TransactionResponse) (hs : List Hook) (g : Grants)
      → after_hooks (added s ∷ hs) g
        ≡ (grant network (λ receipt. some s.to) (parse_ether 5) s.hash (after_hooks hs g)).1
  unfolding after_hooks on_hook on_added
  added_lem s hs g = refl

  keys_added_lem :
      (s : TransactionResponse) (hs : List Hook) (g : Grants)
      → after_hooks (keys_added s ∷ hs) g
        ≡ (grant network (λ receipt. some s.to) (parse_ether 15) s.hash (after_hooks hs g)).1
  unfolding after_hooks on_hook on_keys_added
  keys_added_lem s hs g = refl

  -- Whatever a message is and however its execution ends, the listeners of the relayer that grants
  -- tokens do nothing after it, or make one transfer to where the node says that the message's
  -- transaction went, once this is mined with a truthy status and carries a message to that address: of
  -- five tokens where that message calls `addKey`, or of fifteen where it calls `addKeys`.
  pub execute_and_wait-granted :
      (e : Ethers) (abi : Abi) (node : Node) (white_list : List Text) (payer : Text)
      (signed : SignedMessage) (w : World) (g : Grants)
      → let before = after_hooks w.hooks g in
        let after = after_hooks (execute_and_wait e abi node white_list payer signed w).1.hooks g in
        (after ≡ before)
        ⊎ ((s : TransactionResponse) × (m : DecodedMessage) × IsSentFor e abi node white_list payer
              signed w s
            × IsCarried abi s m
            × IsMined s
            × (((is_add_key_call abi m.data_field ≡ true) × (after ≡ granted s 5 before))
                ⊎ ((is_add_keys_call abi m.data_field ≡ true) × (after ≡ granted s 15 before))))
  execute_and_wait-granted e abi node white_list payer signed w g =
      elim (execute_and_wait-Heard e abi node white_list payer signed w) [
        | inl same ↦ inl (ap (λ hs. after_hooks hs g) same)
        | inr (s, m, sent, carried, inl same) ↦ inl (ap (λ hs. after_hooks hs g) same)
        | inr (s, m, sent, carried, inr (inl (call, key))) ↦
            let now = ap (λ hs. after_hooks hs g) key ∙ added_lem s w.hooks g in
            elim (grant_cases s 5 (after_hooks w.hooks g)) [
              | inl none_given ↦ inl (now ∙ none_given)
              | inr (mined, given) ↦ inr (s, m, sent, carried, mined, inl (call, now ∙ given))
            ]
        | inr (s, m, sent, carried, inr (inr (call, keys))) ↦
            let now = ap (λ hs. after_hooks hs g) keys ∙ keys_added_lem s w.hooks g in
            elim (grant_cases s 15 (after_hooks w.hooks g)) [
              | inl none_given ↦ inl (now ∙ none_given)
              | inr (mined, given) ↦ inr (s, m, sent, carried, mined, inr (call, now ∙ given))
            ]
      ]
