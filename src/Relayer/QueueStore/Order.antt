-- ===== src/Relayer/QueueStore/Order.antt =====
-- The order in which `getNext` takes the messages that wait.
use mathlib.Core.List.{Memᴰ}
use universal_login_sdk.Prelude.{
  ℕ, ◌≤◌, ◌<◌, ◌≡◌, refl, sym, subst, inl, inr, Bool, true, false, none, some, List, [], ◌∷◌, Text,
  arith, Bool-cases, Option-cases, length, filter, All, ==_refl,
}
use universal_login_sdk.Relayer.Database.{QueueRow}
use universal_login_sdk.Relayer.QueueStore.{
  is_waiting, precedes, older, first_waiting, update, row_has_hash,
}

-- How many rows wait.
abbrev pub waiting : List QueueRow → ℕ
waiting rows = length (filter is_waiting rows)

-- The row is in the list, and none of the list was created earlier.
pub record IsOldest (r : QueueRow) (rows : List QueueRow) : Type 0 where
  pub listed : Memᴰ r rows
  pub not_earlier : All (λ (q : QueueRow). r.created_at ≤ q.created_at) rows

precedes_le :
    (ties : QueueRow → QueueRow → Bool) (r q : QueueRow)
    → precedes ties r q ≡ true
    → r.created_at ≤ q.created_at
unfolding precedes
precedes_le ties r q h = ground arith

precedes_ge :
    (ties : QueueRow → QueueRow → Bool) (r q : QueueRow)
    → precedes ties r q ≡ false
    → q.created_at ≤ r.created_at
unfolding precedes
precedes_ge ties r q h = ground arith

All-le_trans :
    (r q : QueueRow) (rows : List QueueRow)
    → r.created_at ≤ q.created_at
    → All (λ (x : QueueRow). q.created_at ≤ x.created_at) rows
    → All (λ (x : QueueRow). r.created_at ≤ x.created_at) rows
All-le_trans r q [] h k = tt
All-le_trans r q (x ∷ rows) h (p, k) = (omega arith, All-le_trans r q rows h k)

-- The older of a row and the oldest of a list is the oldest of both.
older-IsOldest :
    (ties : QueueRow → QueueRow → Bool) (r q : QueueRow) (rows : List QueueRow)
    → IsOldest q rows
    → IsOldest (older ties r (some q)) (r ∷ rows)
older-IsOldest ties r q rows o = elim (Bool-cases (precedes ties r q)) [
  | inl e1 ↦ rw e1 (record {
    listed = Memᴰ.head refl;
    not_earlier = (omega arith, All-le_trans r q rows (precedes_le ties r q e1) o.not_earlier);
  })
  | inr e1 ↦ rw e1 (record {
    listed = Memᴰ.tail o.listed;
    not_earlier = (precedes_ge ties r q e1, o.not_earlier);
  })
]

older_waits :
    (ties : QueueRow → QueueRow → Bool) (r q : QueueRow)
    → is_waiting r ≡ true
    → is_waiting q ≡ true
    → is_waiting (older ties r (some q)) ≡ true
older_waits ties r q h k = elim (Bool-cases (precedes ties r q)) [
  | inl e1 ↦ rw e1 h
  | inr e1 ↦ rw e1 k
]

-- No row is taken where none waits.
pub no_first :
    (ties : QueueRow → QueueRow → Bool) (rows : List QueueRow)
    → first_waiting ties rows ≡ none
    → filter is_waiting rows ≡ []
unfolding first_waiting
no_first ties [] h = refl
no_first ties (r ∷ rs) h = elim (Bool-cases (is_waiting r)) [
  | inl e1 ↦ absurd (ground arith)
  | inr e1 ↦ ground (arith, no_first ties rs)
]

-- The row that is taken is one of those that wait, and none of these was created earlier.
pub first_waiting-IsOldest :
    (ties : QueueRow → QueueRow → Bool) (rows : List QueueRow) (r : QueueRow)
    → first_waiting ties rows ≡ some r
    → (is_waiting r ≡ true) × IsOldest r (filter is_waiting rows)
unfolding first_waiting
first_waiting-IsOldest ties [] r h = absurd (ground arith)
first_waiting-IsOldest ties (q ∷ rs) r h = elim (Bool-cases (is_waiting q)) [
  | inr e1 ↦ rw e1 (first_waiting-IsOldest ties rs r (ground arith))
  | inl e1 ↦ elim (Option-cases (first_waiting ties rs)) [
    | inl e2 ↦ rw e1 (
        subst (λ x. (is_waiting x ≡ true) × IsOldest x (q ∷ filter is_waiting rs)) (ground arith)
          (
            e1,
            record {
              listed = Memᴰ.head refl;
              not_earlier = (
                omega arith,
                subst (All (λ x. q.created_at ≤ x.created_at)) (sym (no_first ties rs e2)) tt,
              );
            },
          ))
    | inr (x, e2) ↦
        let (waits, oldest) = first_waiting-IsOldest ties rs x e2 in
        rw e1 (
          subst (λ y. (is_waiting y ≡ true) × IsOldest y (q ∷ filter is_waiting rs)) (ground arith)
            (older_waits ties q x e1 waits, older-IsOldest ties q x (filter is_waiting rs) oldest))
  ]
]

-- A row that is marked waits no more, and marking makes none wait.
waiting-update :
    (f : QueueRow → QueueRow) (hash : Text) (rows : List QueueRow)
    → ((r : QueueRow) → is_waiting (f r) ≡ false)
    → waiting (update hash f rows) ≤ waiting rows
waiting-update f hash [] done = omega arith
waiting-update f hash (r ∷ rs) done = ground (arith, waiting-update f hash rs done, done r)

-- Marking the row that is taken makes fewer rows wait.
pub waiting-update_first :
    (f : QueueRow → QueueRow) (ties : QueueRow → QueueRow → Bool) (rows : List QueueRow)
    (r : QueueRow)
    → ((q : QueueRow) → is_waiting (f q) ≡ false)
    → first_waiting ties rows ≡ some r
    → waiting (update r.message_hash f rows) < waiting rows
unfolding first_waiting
waiting-update_first f ties [] r done h = absurd (ground arith)
waiting-update_first f ties (q ∷ rs) r done h = elim (Bool-cases (is_waiting q)) [
  | inr e1 ↦ ground (arith, waiting-update_first f ties rs r done, done q)
  | inl e1 ↦ elim (Bool-cases (row_has_hash r.message_hash q)) [
    | inl e2 ↦ ground (arith, waiting-update f r.message_hash rs done, done q)
    | inr e2 ↦ elim (Option-cases (first_waiting ties rs)) [
      | inl e3 ↦ absurd (ground (arith, ==_refl r.message_hash))
      | inr (x, e3) ↦ elim (Bool-cases (precedes ties q x)) [
        | inl e4 ↦ absurd (ground (arith, ==_refl r.message_hash))
        | inr e4 ↦ ground (arith, waiting-update_first f ties rs r done, e3)
      ]
    ]
  ]
]
