-- ===== src/Relayer/Queue/Turns.antt =====
-- What one turn of the loop does.
use universal_login_sdk.Prelude.{
  Result-cases, suc, ◌≤◌, ◌<◌, ◌≡◌, refl, sym, ap, subst, ◌∙◌, inl, inr, false, some, List, Text,
  arith, Result, ok, err, length,
}
use universal_login_sdk.Commons.Ethers.{Ethers}
use universal_login_sdk.Commons.Message.{SignedMessage, bignumberify_signed_message_fields}
use universal_login_sdk.Relayer.Errors.{Exception}
use universal_login_sdk.Relayer.Database.{QueueRow}
use universal_login_sdk.Relayer.Calls.{Abi}
use universal_login_sdk.Relayer.Execution.{
  Transaction, Node, World, TransactionResponse, execute_and_wait,
}
use universal_login_sdk.Relayer.Execution.Sending.{
  Execution, refused, sent, execute_and_wait-Execution,
}
use universal_login_sdk.Relayer.PendingStore
use universal_login_sdk.Relayer.QueueStore
use universal_login_sdk.Relayer.QueueStore.{
  is_waiting, update, first_waiting, read_entity, get_next,
}
use universal_login_sdk.Relayer.QueueStore.Order.{waiting, waiting-update_first}
use universal_login_sdk.Relayer.Queue.{QueueState, error_text, attempt, recover, execute, act, turn}

-- How a row is marked, by the end of the execution.
abbrev pub marked : Result Exception TransactionResponse → QueueRow → QueueRow
marked (ok response) r = record r { transaction_hash = some response.hash }
marked (err x) r = record r { error = some (error_text x) }

pub marked_done :
    (r : Result Exception TransactionResponse) (q : QueueRow) → is_waiting (marked r q) ≡ false
marked_done (ok response) q = ground arith
marked_done (err x) q = ground arith

-- The tables after an execution ended.
pub settled : Text → Result Exception TransactionResponse × World → World
settled hash (ok response, w) = record w {
  database =
      (QueueStore.mark_as_success hash response.hash
        ((PendingStore.set_transaction_hash hash response.hash w.database).1)).1;
}
settled hash (err x, w) = record w {
  database = (QueueStore.mark_as_error hash (error_text x) w.database).1;
}

module _ (e : Ethers) (abi : Abi) (node : Node) (white_list : List Text) (payer : Text) where
  -- The queue's rows survive an execution, and at most one transaction is sent.
  Execution-frame :
      (signed : SignedMessage) (w : World) (p : Result Exception TransactionResponse × World)
      → Execution e abi node white_list payer signed w p
      → (p.1.database.final_messages ≡ w.database.final_messages)
        × (length p.1.sent ≤ suc (length w.sent))
  Execution-frame signed w _ (refused x) = (refl, omega arith)
  Execution-frame signed w _ (sent transaction response r rows hooks built valid taken ends) =
      (refl, omega arith)

  -- `execute` catches what is thrown, and records how the execution ended.
  execute_lem :
      (signed : SignedMessage) (hash : Text) (w : World)
      → execute e abi node white_list payer signed hash w
        ≡ (ok tt, settled hash (execute_and_wait e abi node white_list payer signed w))
  unfolding execute attempt recover settled PendingStore.set_transaction_hash
      QueueStore.mark_as_success QueueStore.mark_as_error
  execute_lem signed hash w =
      elim (Result-cases ((execute_and_wait e abi node white_list payer signed w).0)) [
        | inl (x, e1) ↦ ground arith
        | inr (response, e1) ↦ ground arith
      ]

  settled_rows :
      (hash : Text) (p : Result Exception TransactionResponse × World)
      → (settled hash p).database.final_messages
        ≡ update hash (marked p.0) p.1.database.final_messages
  unfolding settled PendingStore.set_transaction_hash QueueStore.mark_as_success
      QueueStore.mark_as_error
  settled_rows hash (ok response, w) = refl
  settled_rows hash (err x, w) = refl

  settled_sent :
      (hash : Text) (p : Result Exception TransactionResponse × World)
      → (settled hash p).sent ≡ p.1.sent
  unfolding settled
  settled_sent hash (ok response, w) = refl
  settled_sent hash (err x, w) = refl

  -- A turn of the loop that finds a message executes it, and never throws.
  turn_executes :
      (s : QueueState) (w : World) (r : QueueRow) (signed : SignedMessage)
      → first_waiting w.database.ties w.database.final_messages ≡ some r
      → bignumberify_signed_message_fields e r.message ≡ some signed
      → turn e abi node white_list payer s w
        ≡ (ok s, settled r.message_hash (execute_and_wait e abi node white_list payer signed w))
  unfolding turn act get_next read_entity
  turn_executes s w r signed first read = ground (arith, execute_lem signed r.message_hash w)

  -- A turn that finds a message marks its rows, so that fewer wait, and sends at most one
  -- transaction; the loop goes on in the state that it had, whatever the execution threw.
  pub turn-waiting :
      (s : QueueState) (w : World) (r : QueueRow) (signed : SignedMessage)
      → first_waiting w.database.ties w.database.final_messages ≡ some r
      → bignumberify_signed_message_fields e r.message ≡ some signed
      → let run = turn e abi node white_list payer s w in
        let ends = execute_and_wait e abi node white_list payer signed w in
        (run.0 ≡ ok s)
        × (run.1.database.final_messages
            ≡ update r.message_hash (marked ends.0) w.database.final_messages)
        × (waiting run.1.database.final_messages < waiting w.database.final_messages)
        × (length run.1.sent ≤ suc (length w.sent))
  turn-waiting s w r signed first read = rw (turn_executes s w r signed first read) (
    refl,
    rows,
    subst (λ xs. waiting xs < waiting w.database.final_messages) (sym rows)
        (waiting-update_first (marked ends.0) w.database.ties w.database.final_messages r
          (marked_done ends.0) first),
    subst (λ (ts : List Transaction). length ts ≤ suc (length w.sent))
        (sym (settled_sent r.message_hash ends)) frame.1,
  )
    where
      ends : Result Exception TransactionResponse × World
      ends = execute_and_wait e abi node white_list payer signed w

      frame :
          (ends.1.database.final_messages ≡ w.database.final_messages)
          × (length ends.1.sent ≤ suc (length w.sent))
      frame =
          Execution-frame signed w ends
            (execute_and_wait-Execution e abi node white_list payer signed w)

      rows :
          (settled r.message_hash ends).database.final_messages
          ≡ update r.message_hash (marked ends.0) w.database.final_messages
      rows = settled_rows r.message_hash ends ∙ ap (update r.message_hash (marked ends.0)) frame.0
