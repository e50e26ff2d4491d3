-- ===== src/Relayer/Queue/Draining.antt =====
-- What `stopLater` waits for: the loop ends when nothing waits any more.
use universal_login_sdk.Prelude.{
  Bool, ℕ, zero, suc, ◌+◌, ◌≤◌, ◌≡◌, sym, ap, subst, ◌∙◌, inl, inr, none, some, List, [], ◌∷◌, Text,
  arith, Result, ok, err, Bool-cases, Option-cases, length, All, if◌then◌else◌,
}
use universal_login_sdk.Commons.Ethers.{Ethers}
use universal_login_sdk.Commons.Message.{SignedMessage, bignumberify_signed_message_fields}
use universal_login_sdk.Relayer.Errors.{Exception}
use universal_login_sdk.Relayer.Database.{QueueRow}
use universal_login_sdk.Relayer.Calls.{Abi}
use universal_login_sdk.Relayer.Execution.{Node, World, TransactionResponse, execute_and_wait}
use universal_login_sdk.Relayer.QueueStore.{
  is_waiting, update, first_waiting, precedes, read_entity, get_next, row_has_hash,
}
use universal_login_sdk.Relayer.QueueStore.Order.{waiting, no_first}
use universal_login_sdk.Relayer.Queue.{QueueState, stopping, idle, act, turn, loop}
use universal_login_sdk.Relayer.Queue.Turns.{marked, turn-waiting}

-- The stored message is one that can be read back.
abbrev pub IsReadable : Ethers → QueueRow → Type 0
IsReadable e r =
    (signed : SignedMessage) × (bignumberify_signed_message_fields e r.message ≡ some signed)

module _ (e : Ethers) where
  IsReadable-one :
      (r : Result Exception TransactionResponse) (hash : Text) (q : QueueRow)
      → IsReadable e q
      → IsReadable e (if row_has_hash hash q then marked r q else q)
  IsReadable-one (ok response) hash q (signed, p) = (signed, ground arith)
  IsReadable-one (err x) hash q (signed, p) = (signed, ground arith)

  IsReadable-update :
      (r : Result Exception TransactionResponse) (hash : Text) (rows : List QueueRow)
      → All (IsReadable e) rows
      → All (IsReadable e) (update hash (marked r) rows)
  IsReadable-update r hash [] h = tt
  IsReadable-update r hash (q ∷ rows) (p, h) =
      (IsReadable-one r hash q p, IsReadable-update r hash rows h)

  IsReadable-first :
      (ties : QueueRow → QueueRow → Bool) (rows : List QueueRow) (r : QueueRow)
      → All (IsReadable e) rows
      → first_waiting ties rows ≡ some r
      → IsReadable e r
  unfolding first_waiting
  IsReadable-first ties [] r h first = absurd (ground arith)
  IsReadable-first ties (q ∷ rows) r (p, h) first = elim (Bool-cases (is_waiting q)) [
    | inr e1 ↦ IsReadable-first ties rows r h (ground arith)
    | inl e1 ↦ elim (Option-cases (first_waiting ties rows)) [
      | inl e2 ↦ (p.0, ground arith)
      | inr (x, e2) ↦
          let (signed, read) = IsReadable-first ties rows x h e2 in
          elim (Bool-cases (precedes ties q x)) [
            | inl e3 ↦ (p.0, ground arith)
            | inr e3 ↦ (signed, ground arith)
          ]
    ]
  ]

  module _ (abi : Abi) (node : Node) (white_list : List Text) (payer : Text) where
    turn-idle :
        (s : QueueState) (w : World)
        → first_waiting w.database.ties w.database.final_messages ≡ none
        → turn e abi node white_list payer s w ≡ (ok (idle s), w)
    unfolding turn act get_next read_entity
    turn-idle s w h = ground arith

    loop_step :
        (n : ℕ) (w : World)
        → (turn e abi node white_list payer stopping w).0 ≡ ok stopping
        → loop e abi node white_list payer (suc n) stopping w
          ≡ loop e abi node white_list payer n stopping
              (turn e abi node white_list payer stopping w).1
    unfolding loop
    loop_step n w h = ground arith

    loop_end :
        (n : ℕ) (w : World)
        → first_waiting w.database.ties w.database.final_messages ≡ none
        → loop e abi node white_list payer (suc n) stopping w ≡ some (ok tt, w)
    unfolding loop idle
    loop_end n w h = ground (arith, turn-idle stopping w h)

    -- Once stopLater is called and no further message comes, where the amounts of every row of the
    -- queue can be read back, as many turns as messages wait, and one more, end the loop without an
    -- error. Every message was taken by then, and no more transactions were sent than messages waited.
    pub loop-drains :
        (n : ℕ) (w : World)
        → waiting w.database.final_messages ≤ n
        → All (IsReadable e) w.database.final_messages
        → (w' : World) × (loop e abi node white_list payer (suc n) stopping w ≡ some (ok tt, w'))
          × (waiting w'.database.final_messages ≡ 0)
          × (length w'.sent ≤ length w.sent + waiting w.database.final_messages)
    loop-drains zero w enough readable =
        elim (Option-cases (first_waiting w.database.ties w.database.final_messages)) [
          | inl e1 ↦ (
            w,
            loop_end 0 w e1,
            ap length (no_first w.database.ties w.database.final_messages e1),
            omega arith,
          )
          | inr (r, e1) ↦
              let (signed, read) =
                IsReadable-first w.database.ties w.database.final_messages r readable e1 in
              let (_, _, fewer, _) =
                turn-waiting e abi node white_list payer stopping w r signed e1 read in
              absurd (omega arith)
        ]
    loop-drains (suc n) w enough readable =
        elim (Option-cases (first_waiting w.database.ties w.database.final_messages)) [
          | inl e1 ↦ (
            w,
            loop_end (suc n) w e1,
            ap length (no_first w.database.ties w.database.final_messages e1),
            omega arith,
          )
          | inr (r, e1) ↦
              let (signed, read) =
                IsReadable-first w.database.ties w.database.final_messages r readable e1 in
              let (goes_on, rows, fewer, sending) =
                turn-waiting e abi node white_list payer stopping w r signed e1 read in
              let (w', ends, drained, sent) =
                loop-drains n (turn e abi node white_list payer stopping w).1 (omega arith) (
                  subst (All (IsReadable e)) (sym rows) (
                    IsReadable-update (execute_and_wait e abi node white_list payer signed w).0
                      r.message_hash w.database.final_messages readable)) in
              (w', loop_step (suc n) w goes_on ∙ ends, drained, omega arith)
        ]
