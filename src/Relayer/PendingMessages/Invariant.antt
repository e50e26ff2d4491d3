-- ===== src/Relayer/PendingMessages/Invariant.antt =====
-- What holds of the tables between two calls.
use universal_login_sdk.Prelude.{
  ℕ, ◌≡◌, refl, ◌≢◌, inl, inr, none, some, List, [], ◌∷◌, ◌++◌, Text, arith, find?, All, All-append,
  Result, ok, ==_iff,
}
use universal_login_sdk.Commons.Ethers.{Ethers}
use universal_login_sdk.Commons.Message.{SignedMessage}
use universal_login_sdk.Relayer.Errors.{Exception}
use universal_login_sdk.Relayer.Database.{MessageRow, SignatureRow, QueueRow, Database, Chain}
use universal_login_sdk.Relayer.PendingStore
use universal_login_sdk.Relayer.PendingStore.{has_hash, pair_has_hash, get_message, pairs_of}
use universal_login_sdk.Relayer.PendingStore.Rows.{
  AreDistinct, AreDistinct-append, HaveDistinctHashes, HaveDistinctHashes-append, find?-append,
  find?-append_some,
}
use universal_login_sdk.Relayer.QueueStore.{get_row, row_has_hash}
use universal_login_sdk.Relayer.PendingMessages.{add}
use universal_login_sdk.Relayer.PendingMessages.Collecting.{IsAccepted}
use universal_login_sdk.Relayer.PendingMessages.Outcome.{
  with_queued, registered, registered_cases, hash_of, collected, Outcome, rejected, unanswered,
  waiting, unjoined, already_queued, queued,
}
use universal_login_sdk.Relayer.PendingMessages.Ending.{add-Outcome}

-- No two rows of the queue have one hash.
abbrev pub HaveDistinctRows : List QueueRow → Type 0
HaveDistinctRows [] = Unit
HaveDistinctRows (r ∷ rs) = (find? (row_has_hash r.message_hash) rs ≡ none) × HaveDistinctRows rs

HaveDistinctRows-append :
    (rows : List QueueRow) (r : QueueRow)
    → HaveDistinctRows rows
    → find? (row_has_hash r.message_hash) rows ≡ none
    → HaveDistinctRows (rows ++ r ∷ [])
HaveDistinctRows-append [] r h new = (refl, tt)
HaveDistinctRows-append (q ∷ rows) r (h, hs) new = (
  ground (
    arith,
    find?-append (row_has_hash q.message_hash) rows r,
    ==_iff r.message_hash q.message_hash,
    ==_iff q.message_hash r.message_hash,
  ),
  HaveDistinctRows-append rows r hs (ground arith),
)

module _ (e : Ethers) (chain : Chain) where
  -- A collected signature recovers to its key, and the key has a purpose in the wallet contract of
  -- the message that it is for.
  pub record IsGenuine (rows : List MessageRow) (r : SignatureRow) : Type 0 where
    pub row : MessageRow
    pub purpose : ℕ
    pub found : find? (has_hash r.message_hash) rows ≡ some row
    pub recovered : e.verify_message (e.arrayify r.message_hash) r.signature ≡ some r.key
    pub authorised : chain.get_key_purpose row.wallet_address r.key ≡ ok purpose
    pub valid_purpose : purpose ≢ 0

  pub record IsConsistent (db : Database) : Type 0 where
    pub distinct_messages : HaveDistinctHashes db.messages
    pub distinct_signatures : AreDistinct db.signature_key_pairs
    pub distinct_queue : HaveDistinctRows db.final_messages
    pub genuine : All (IsGenuine db.messages) db.signature_key_pairs

  All-IsGenuine_append :
      (rows : List MessageRow) (new : MessageRow) (rs : List SignatureRow)
      → All (IsGenuine rows) rs
      → All (IsGenuine (rows ++ new ∷ [])) rs
  All-IsGenuine_append rows new [] h = tt
  All-IsGenuine_append rows new (r ∷ rs) (g, h) = (
    record {
      row = g.row;
      purpose = g.purpose;
      found = find?-append_some (has_hash r.message_hash) rows new g.found;
      recovered = g.recovered;
      authorised = g.authorised;
      valid_purpose = g.valid_purpose;
    },
    All-IsGenuine_append rows new rs h,
  )

  registered-IsConsistent :
      (message : SignedMessage) (db : Database)
      → IsConsistent db
      → IsConsistent (registered e chain message db)
  unfolding get_message
  registered-IsConsistent message db c = elim (registered_cases e chain message db) [
    | inl same ↦ rw same c
    | inr (absent, same) ↦ rw same (record {
      distinct_messages = HaveDistinctHashes-append db.messages _ c.distinct_messages absent;
      distinct_signatures = c.distinct_signatures;
      distinct_queue = c.distinct_queue;
      genuine = All-IsGenuine_append db.messages _ db.signature_key_pairs c.genuine;
    })
  ]

  collected-IsConsistent :
      (message : SignedMessage) (db : Database) (key : Text)
      → IsAccepted e chain message db key
      → IsConsistent db
      → IsConsistent (collected e chain message db key)
  unfolding get_message
  collected-IsConsistent message db key a c = record {
    distinct_messages = c.distinct_messages;
    distinct_signatures = AreDistinct-append db.signature_key_pairs _ c.distinct_signatures a.new;
    distinct_queue = c.distinct_queue;
    genuine = All-append (IsGenuine db.messages) db.signature_key_pairs _ c.genuine (
      record {
        row = a.row;
        purpose = a.purpose;
        found = a.found;
        recovered = a.recovered;
        authorised = a.authorised;
        valid_purpose = a.valid_purpose;
      },
      tt,
    );
  }

  with_queued-IsConsistent :
      (db : Database) (hash : Text) (message : SignedMessage)
      → get_row hash db ≡ none
      → IsConsistent db
      → IsConsistent (with_queued db hash message)
  unfolding get_row
  with_queued-IsConsistent db hash message absent c = record {
    distinct_messages = c.distinct_messages;
    distinct_signatures = c.distinct_signatures;
    distinct_queue = HaveDistinctRows-append db.final_messages _ c.distinct_queue absent;
    genuine = c.genuine;
  }

  Outcome-IsConsistent :
      (message : SignedMessage) (db : Database)
      {r : Result Exception PendingStore.MessageStatus × Database}
      → IsConsistent db
      → Outcome e chain message db r
      → IsConsistent r.1
  Outcome-IsConsistent message db c (rejected x h) = rw h c
  Outcome-IsConsistent message db c (unanswered x key a _ h) =
      rw h (collected-IsConsistent message db key a c)
  Outcome-IsConsistent message db c (waiting n key a _ _ h) =
      rw h (collected-IsConsistent message db key a c)
  Outcome-IsConsistent message db c (unjoined n key t a _ _ _ _ h) =
      rw h (collected-IsConsistent message db key a c)
  Outcome-IsConsistent message db c (already_queued n key t a _ _ _ _ _ h) =
      rw h (collected-IsConsistent message db key a c)
  Outcome-IsConsistent message db c (queued n key t a _ _ _ _ absent h) = rw h (
      with_queued-IsConsistent (collected e chain message db key) (hash_of e chain message) _ absent
        (collected-IsConsistent message db key a c))

  -- Whatever message comes, and whether it is accepted or refused, the tables keep their keys
  -- distinct, and hold only signatures of keys that the wallet contract knows, each at most once.
  pub add-IsConsistent :
      (message : SignedMessage) (db : Database)
      → IsConsistent db
      → IsConsistent (add e chain message db).1
  add-IsConsistent message db c = elim (add-Outcome e chain message db) [
    | inl (_, stops) ↦ rw stops c
    | inr (_, outcome) ↦
        Outcome-IsConsistent message (registered e chain message db)
          (registered-IsConsistent message db c) outcome
  ]
