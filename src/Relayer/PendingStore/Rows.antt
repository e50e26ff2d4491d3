-- ===== src/Relayer/PendingStore/Rows.antt =====
-- The rows of the two tables: what an appended or updated row changes for a lookup.
use universal_login_sdk.Prelude.{
  ◌≡◌, refl, Bool, true, false, not, ◌&&◌, none, some, List, [], ◌∷◌, ◌++◌, map, Text, ◌==◌, ==_iff,
  arith, filter, find?, is_some, filter-append, if◌then◌else◌,
}
use universal_login_sdk.Relayer.Database.{MessageRow, SignatureRow}
use universal_login_sdk.Relayer.PendingStore.{
  has_hash, pair_has_hash, has_signature, with_transaction_hash,
}

-- A row that is appended is found under its hash if none was, and hides no other.
pub find?-append {ℓ} :
    {A : Type ℓ} (p : A → Bool) (xs : List A) (a : A)
    → find? p (xs ++ a ∷ [])
      ≡ (if is_some (find? p xs) then find? p xs else if p a then some a else none)
find?-append p [] a = refl
find?-append p (x ∷ xs) a = ground (arith, find?-append p xs a)

pub find?-sound {ℓ} :
    {A : Type ℓ} (p : A → Bool) (xs : List A) {a : A} → find? p xs ≡ some a → p a ≡ true
find?-sound p [] h = cc
find?-sound p (x ∷ xs) {a} h = ground (arith, find?-sound p xs {a = a})

pub find?-append_some {ℓ} :
    {A : Type ℓ} (p : A → Bool) (xs : List A) (b : A) {a : A}
    → find? p xs ≡ some a
    → find? p (xs ++ b ∷ []) ≡ some a
find?-append_some p xs b h = ground (arith, find?-append p xs b)

-- No two rows hold one signature under one hash.
abbrev pub AreDistinct : List SignatureRow → Type 0
AreDistinct [] = Unit
AreDistinct (r ∷ rs) = (has_signature r.message_hash r.signature rs ≡ false) × AreDistinct rs

pub has_signature-append :
    (hash signature : Text) (rows : List SignatureRow) (r : SignatureRow)
    → has_signature hash signature (rows ++ r ∷ []) ≡ (
        if has_signature hash signature rows
        then true
        else (r.message_hash == hash) && (r.signature == signature))
unfolding has_signature
has_signature-append hash signature rows r = ground (
  arith,
  find?-append (λ (q : SignatureRow). pair_has_hash hash q && q.signature == signature) rows r,
)

pub AreDistinct-append :
    (rows : List SignatureRow) (r : SignatureRow)
    → AreDistinct rows
    → has_signature r.message_hash r.signature rows ≡ false
    → AreDistinct (rows ++ r ∷ [])
unfolding has_signature
AreDistinct-append [] r h new = (refl, tt)
AreDistinct-append (q ∷ rows) r (h, hs) new = (
  ground (
    arith,
    has_signature-append q.message_hash q.signature rows r,
    ==_iff r.message_hash q.message_hash,
    ==_iff q.message_hash r.message_hash,
    ==_iff r.signature q.signature,
    ==_iff q.signature r.signature,
  ),
  AreDistinct-append rows r hs (ground arith),
)

-- No two rows of `messages` have one hash.
abbrev pub HaveDistinctHashes : List MessageRow → Type 0
HaveDistinctHashes [] = Unit
HaveDistinctHashes (r ∷ rs) = (find? (has_hash r.message_hash) rs ≡ none) × HaveDistinctHashes rs

pub HaveDistinctHashes-append :
    (rows : List MessageRow) (r : MessageRow)
    → HaveDistinctHashes rows
    → find? (has_hash r.message_hash) rows ≡ none
    → HaveDistinctHashes (rows ++ r ∷ [])
HaveDistinctHashes-append [] r h new = (refl, tt)
HaveDistinctHashes-append (q ∷ rows) r (h, hs) new = (
  ground (
    arith,
    find?-append (has_hash q.message_hash) rows r,
    ==_iff r.message_hash q.message_hash,
    ==_iff q.message_hash r.message_hash,
  ),
  HaveDistinctHashes-append rows r hs (ground arith),
)

-- Setting the transaction hash changes that field of the row under the hash, and nothing else.
pub find?-with_transaction_hash :
    (hash t other : Text) (rows : List MessageRow)
    → find? (has_hash other) (map (with_transaction_hash hash t) rows)
      ≡ elim (find? (has_hash other) rows) [
        | none ↦ none
        | some r ↦ some (with_transaction_hash hash t r)
      ]
find?-with_transaction_hash hash t other [] = refl
find?-with_transaction_hash hash t other (r ∷ rows) =
    ground (arith, find?-with_transaction_hash hash t other rows)

-- After its rows are deleted a hash is absent, and every other hash keeps its row.
pub find?-removed :
    (hash other : Text) (rows : List MessageRow)
    → find? (has_hash other) (filter (λ r. not (has_hash hash r)) rows)
      ≡ (if hash == other then none else find? (has_hash other) rows)
find?-removed hash other [] = ground arith
find?-removed hash other (r ∷ rows) = ground (
  arith,
  find?-removed hash other rows,
  ==_iff r.message_hash hash,
  ==_iff r.message_hash other,
  ==_iff hash other,
)

pub pairs-removed :
    (hash : Text) (rows : List SignatureRow)
    → filter (pair_has_hash hash) (filter (λ r. not (pair_has_hash hash r)) rows) ≡ []
pairs-removed hash [] = refl
pairs-removed hash (r ∷ rows) = ground (arith, pairs-removed hash rows)

pub pairs-append :
    (hash : Text) (rows : List SignatureRow) (r : SignatureRow)
    → pair_has_hash hash r ≡ true
    → filter (pair_has_hash hash) (rows ++ r ∷ []) ≡ filter (pair_has_hash hash) rows ++ r ∷ []
pairs-append hash rows r h = ground (arith, filter-append (pair_has_hash hash) rows (r ∷ []))
