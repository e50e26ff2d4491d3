-- ===== src/Relayer/PendingMessages/Ending.antt =====
-- `add` ends in one of the ways that `Outcome` lists.
use universal_login_sdk.Prelude.{
  Result-cases, ℕ, ◌≤◌, ◌≡◌, ◌∙◌, ◌⊎◌, inl, inr, true, false, map, Text, arith, length, length-map,
  leb, ok, err, Bool-cases, Option-cases,
}
use universal_login_sdk.Commons.Ethers.{Ethers}
use universal_login_sdk.Commons.Message.{SignedMessage, is_hashable}
use universal_login_sdk.Commons.Signatures.{concatenate_signatures}
use universal_login_sdk.Relayer.Errors.{Exception}
use universal_login_sdk.Relayer.Database.{Database, Chain}
use universal_login_sdk.Relayer.PendingStore.{get_message, pairs_of, to_pair}
use universal_login_sdk.Relayer.QueueStore
use universal_login_sdk.Relayer.QueueStore.{get_row, unhashable}
use universal_login_sdk.Relayer.KeyOrder.{
  sort_signature_key_pairs_by_key, sort-perm, sort-IsSortedByKey,
}
use universal_login_sdk.Relayer.PendingMessages.{get_status, finish, add, on_ready_to_execute}
use universal_login_sdk.Relayer.PendingMessages.Collecting.{IsAccepted, add_signature_cases}
use universal_login_sdk.Relayer.PendingMessages.Outcome.{
  registered, sorted_signatures, status_at, hash_of, collected, KeyOrdered, Outcome, rejected,
  unanswered, waiting, unjoined, already_queued, queued,
}
use universal_login_sdk.Relayer.PendingMessages.Steps.{
  proceed, collect, add-collect, add-unhashable, get_status_err, proceed-finish, finish_unjoined,
  ready, queue_add_present, queue_add_absent,
}

module _ (e : Ethers) (chain : Chain) where
  -- The order in which the code sorts is the one that the contract wants.
  key_ordered : (hash : Text) (db : Database) → KeyOrdered e chain hash db
  key_ordered hash db = record {
    pairs = sort_signature_key_pairs_by_key e (map to_pair (pairs_of hash db));
    all_of = sort-perm e (map to_pair (pairs_of hash db));
    ascending = sort-IsSortedByKey e (map to_pair (pairs_of hash db));
  }

  module _ (message : SignedMessage) (db : Database) (key : Text)
      (accepted : IsAccepted e chain message db key) where
    -- The end of a call for a message with enough signatures.
    enough-Outcome :
        (n : ℕ)
        → chain.required_signatures accepted.row.wallet_address ≡ ok n
        → n ≤ length (pairs_of (hash_of e chain message) (collected e chain message db key))
        → proceed e chain message (collected e chain message db key)
          ≡ finish e chain true
              (hash_of e chain message)
              message
              (status_at e chain
                (hash_of e chain message)
                (collected e chain message db key)
                accepted.row
                n)
              (collected e chain message db key)
        → Outcome e chain message db (proceed e chain message (collected e chain message db key))
    unfolding finish get_message sorted_signatures key_ordered
    enough-Outcome n answers enough goes =
        elim (Result-cases (concatenate_signatures (sorted_signatures e chain hash after))) [
          | inl (t, bad) ↦ unjoined n key t accepted answers enough (key_ordered hash after) bad (
              goes
              ∙ finish_unjoined e chain message after accepted.row n accepted.found answers t bad)
          | inr (t, joined) ↦ elim (Option-cases (get_row hash after)) [
            | inl absent ↦
                queued n key t accepted answers enough (key_ordered hash after) joined absent (
                  goes
                  ∙ ground (
                    arith,
                    handed t joined,
                    queue_add_absent e chain message t after accepted.hashable absent,
                  ))
            | inr (row, present) ↦
                already_queued n key t accepted answers enough (key_ordered hash after) joined
                  (ground arith)
                  (goes
                    ∙ ground (
                      arith,
                      handed t joined,
                      queue_add_present e chain message t after row accepted.hashable present,
                    ))
          ]
        ]
      where
        hash : Text
        hash = hash_of e chain message

        after : Database
        after = collected e chain message db key

        handed :
            (t : Text)
            → concatenate_signatures (sorted_signatures e chain hash after) ≡ ok t
            → on_ready_to_execute e chain hash message after
              ≡ QueueStore.add e (record message { signature = t }) after
        handed t joined =
            ready e chain message after accepted.row n accepted.found answers t accepted.hashable
              accepted.not_executed (omega (arith, length-map to_pair (pairs_of hash after))) joined

    proceed_err :
        (x : Exception)
        → chain.required_signatures accepted.row.wallet_address ≡ err x
        → proceed e chain message (collected e chain message db key)
          ≡ (err x, collected e chain message db key)
    unfolding proceed get_status get_message
    proceed_err x fails = ground (
      arith,
      get_status_err e chain (hash_of e chain message) (collected e chain message db key)
          accepted.row x accepted.found fails,
    )

    proceed-Outcome :
        Outcome e chain message db (proceed e chain message (collected e chain message db key))
    unfolding finish get_message
    proceed-Outcome = elim (Result-cases (chain.required_signatures accepted.row.wallet_address)) [
      | inl (x, fails) ↦ unanswered x key accepted fails (proceed_err x fails)
      | inr (n, answers) ↦
          let goes = proceed-finish e chain message after accepted.row n accepted.found answers in
          let same = length-map to_pair (pairs_of (hash_of e chain message) after) in
          elim (Bool-cases
            (leb n (length (map to_pair (pairs_of (hash_of e chain message) after))))) [
              | inl enough ↦ enough-Outcome n answers (ground (arith, same)) (goes ∙ rw enough)
              | inr short ↦
                  waiting n key accepted answers (ground (arith, same)) (goes ∙ rw (short, finish))
            ]
    ]
      where
        after : Database
        after = collected e chain message db key

  registered-Outcome :
      (message : SignedMessage) (db : Database)
      → is_hashable e message ≡ true
      → Outcome e chain message (registered e chain message db) (add e chain message db)
  unfolding collect
  registered-Outcome message db hashable =
      rw (add-collect e chain message db hashable)
        (elim (add_signature_cases e chain message (registered e chain message db) hashable) [
          | inl (x, stops) ↦ rejected x (ground arith)
          | inr (key, accepted, goes) ↦
              let later = proceed-Outcome message (registered e chain message db) key accepted in
              let same : collect e chain message (registered e chain message db)
                  ≡ proceed e chain message
                      (collected e chain message (registered e chain message db) key) =
                ground arith in
              rw same later
        ])

  -- Every call of `add` throws because ethers takes no hash of the message, with the tables as they
  -- were, or it ends in one of the ways that `Outcome` lists, on the tables with a row for its message.
  pub add-Outcome :
      (message : SignedMessage) (db : Database)
      → ((is_hashable e message ≡ false) × (add e chain message db ≡ (err unhashable, db)))
        ⊎ ((is_hashable e message ≡ true)
            × Outcome e chain message (registered e chain message db) (add e chain message db))
  add-Outcome message db = elim (Bool-cases (is_hashable e message)) [
    | inl hashable ↦ inr (hashable, registered-Outcome message db hashable)
    | inr malformed ↦ inl (malformed, add-unhashable e chain message db malformed)
  ]
