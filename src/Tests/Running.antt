-- ===== src/Tests/Running.antt =====
-- The queue with two messages, and the node that takes their transactions.
use universal_login_sdk.Prelude.{
  ◌<◌, ◌≤◌, ◌≡◌, refl, ◌⊎◌, none, some, [], ◌∷◌, Text, codes, ok, length, All, arith, true,
}
use universal_login_sdk.Commons.Message.{bignumberify-stringify}
use universal_login_sdk.Relayer.QueueStore.{
  is_waiting, first_waiting, add, get_next, update, get_row,
}
use universal_login_sdk.Relayer.QueueStore.Order.{waiting, IsOldest, first_waiting-IsOldest}
use universal_login_sdk.Relayer.QueueStore.Delivery.{get_next-add}
use universal_login_sdk.Relayer.Execution.{World, Transaction, execute_and_wait}
use universal_login_sdk.Relayer.Execution.Sending.{Execution, execute_and_wait-Execution}
use universal_login_sdk.Relayer.Execution.{TransactionResponse}
use universal_login_sdk.Relayer.Granting.{Network, Grants}
use universal_login_sdk.Relayer.Granting.Amounts.{
  IsCarried, IsMined, after_hooks, granted, IsSentFor, execute_and_wait-granted,
}
use universal_login_sdk.Relayer.Queue.{stopping, running, loop, turn}
use universal_login_sdk.Relayer.Queue.Turns.{turn-waiting, marked}
use universal_login_sdk.Relayer.Queue.Draining.{IsReadable, loop-drains}
use universal_login_sdk.Relayer.Calls.{DecodedMessage, is_add_key_call, is_add_keys_call}
use universal_login_sdk.Tests.Samples.{
  ethers, ethers-ReadsDecimals, message_a, empty, abi, node, white_list, young, old, busy,
}
use universal_login_sdk.Commons.Message.{message_hash_of, is_hashable}

abbrev payer : Text
payer = codes "relayer"

abbrev transaction : Transaction
transaction = record {
  gas_price = 1;
  gas_limit = 100;
  to = codes "wallet";
  value = 0;
  data_field = codes "0xaacaaf88";
}

execute_and_wait-Execution_example :
    Execution ethers abi node white_list payer message_a busy
      (execute_and_wait ethers abi node white_list payer message_a busy)
execute_and_wait-Execution_example =
    execute_and_wait-Execution ethers abi node white_list payer message_a busy

first : first_waiting busy.database.ties busy.database.final_messages ≡ some old
unfolding first_waiting
first = refl

first_waiting-IsOldest_example : (is_waiting old ≡ true) × IsOldest old (young ∷ old ∷ [])
first_waiting-IsOldest_example =
    first_waiting-IsOldest busy.database.ties busy.database.final_messages old first

get_next-add_example :
    (get_next ethers ((add ethers message_a empty).1)).0
    ≡ ok (
        some (record {
          message_hash = message_hash_of ethers message_a;
          transaction_hash = none;
          error = none;
          message = message_a;
        }))
unfolding get_row is_hashable
get_next-add_example = get_next-add ethers message_a empty ethers-ReadsDecimals refl refl refl

turn-waiting_example :
    let run = turn ethers abi node white_list payer running busy in
    let ends = execute_and_wait ethers abi node white_list payer message_a busy in
    (run.0 ≡ ok running)
    × (run.1.database.final_messages
        ≡ update (codes "0xa") (marked ends.0) busy.database.final_messages)
    × (waiting run.1.database.final_messages < 2)
    × (length run.1.sent ≤ 1)
turn-waiting_example =
    turn-waiting ethers abi node white_list payer running busy old message_a first
      (bignumberify-stringify ethers message_a ethers-ReadsDecimals)

readable : All (IsReadable ethers) busy.database.final_messages
readable = (
  (message_a, bignumberify-stringify ethers message_a ethers-ReadsDecimals),
  ((message_a, bignumberify-stringify ethers message_a ethers-ReadsDecimals), tt),
)

loop-drains_example :
    (w' : World) × (loop ethers abi node white_list payer 3 stopping busy ≡ some (ok tt, w'))
    × (waiting w'.database.final_messages ≡ 0)
    × (length w'.sent ≤ 2)
loop-drains_example = loop-drains ethers abi node white_list payer 2 busy (omega arith) readable

-- The receipt of every transaction is good.
abbrev network : Network
network = record {
  wait_to_be_mined = λ hash. ok (record { is_mined = true; contract_address = none });
  transfer = λ before transfer. ok (codes "0x7");
  send_transaction = λ before payment. ok tt;
}

abbrev no_grants : Grants
no_grants = record { tokens = []; ether = [] }

execute_and_wait-granted_example :
    let before = after_hooks network busy.hooks no_grants in
    let after =
      after_hooks network
        (execute_and_wait ethers abi node white_list payer message_a busy).1.hooks
        no_grants in
    (after ≡ before)
    ⊎ ((s : TransactionResponse) × (m : DecodedMessage) × IsSentFor ethers abi node white_list payer
          message_a busy s
        × IsCarried abi s m
        × IsMined network s
        × (((is_add_key_call abi m.data_field ≡ true) × (after ≡ granted s 5 before))
            ⊎ ((is_add_keys_call abi m.data_field ≡ true) × (after ≡ granted s 15 before))))
execute_and_wait-granted_example =
    execute_and_wait-granted network ethers abi node white_list payer message_a busy no_grants
