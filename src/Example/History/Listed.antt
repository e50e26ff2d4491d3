-- ===== src/Example/History/Listed.antt =====
-- Which logs the history lists.
use universal_login_sdk.Prelude.{
  ℕ, zero, suc, ◌≤◌, ◌≡◌, refl, sym, ap, ◌∙◌, List, [], ◌∷◌, ◌++◌, Text, map, length, drop, eqb,
  length-map, length-append, drop-append_of_length, append-nil, eqb_iff, arith, Bool-cases, inl,
  inr,
}
use mathlib.Core.List.{reverse, map-append, reverse-cons}
use universal_login_sdk.Example.History.{
  Log, Presser, Chain, HistoryService, add_new, get_events_from_logs, get_event_form_logs,
  from_block_of,
}

length-zero : {A : Type 0} (xs : List A) → length xs ≡ 0 → xs ≡ []
length-zero [] h = refl
length-zero (x ∷ xs) h = absurd (omega arith)

pub map-reverse : {A B : Type 0} (f : A → B) (xs : List A) → map f (reverse xs) ≡ reverse (map f xs)
map-reverse f [] = refl
map-reverse f (x ∷ xs) =
    ap (map f) (reverse-cons x xs)
    ∙ map-append f (reverse xs) (x ∷ [])
    ∙ ap (λ r. r ++ f x ∷ []) (map-reverse f xs)
    ∙ sym (reverse-cons (f x) (map f xs))

-- Which log an entry came from: its data, and who pressed.
abbrev pub source_of : Presser → Text × Text
source_of p = (p.key, p.address)

abbrev pub identity_of : Log → Text × Text
identity_of l = (l.data_field, l.presser)

pub from_block_of_short : (b : ℕ) → b ≤ 500000 → from_block_of b ≡ 0
unfolding from_block_of
from_block_of_short b near = ground arith

module _ (chain : Chain) where
  sources-events :
      (asked : ℕ) (events : List Log)
      → map source_of (map (get_event_form_logs chain asked) events) ≡ map identity_of events
  unfolding get_event_form_logs
  sources-events asked [] = refl
  sources-events asked (l ∷ ls) = ap (λ r. (l.data_field, l.presser) ∷ r) (sources-events asked ls)

  length-drop_over : {A : Type 0} (n : ℕ) (xs : List A) → length xs ≤ n → drop n xs ≡ []
  length-drop_over zero [] h = refl
  length-drop_over zero (x ∷ xs) h = absurd (omega arith)
  length-drop_over (suc n) [] h = refl
  length-drop_over (suc n) (x ∷ xs) h = length-drop_over n xs (omega arith)

  pub add_new_pressers :
      (logs : List Log) (s : HistoryService)
      → add_new chain logs s ≡ record s { pressers = (add_new chain logs s).pressers }
  unfolding add_new get_events_from_logs
  add_new_pressers logs s = elim (Bool-cases (eqb (length logs) (length s.pressers))) [
    | inl e ↦ ground arith
    | inr e ↦ ground arith
  ]

  -- Where the node answers with no more logs than are listed, nothing is listed anew, whichever logs
  -- they are: presses are missed as old ones leave the window of blocks that is asked for.
  pub add_new_missed :
      (logs : List Log) (s : HistoryService)
      → length logs ≤ length s.pressers
      → (add_new chain logs s).pressers ≡ s.pressers
  unfolding add_new get_events_from_logs
  add_new_missed logs s few = elim (Bool-cases (eqb (length logs) (length s.pressers))) [
    | inl e ↦ ground arith
    | inr e ↦ rw (e, length-drop_over (length s.pressers) logs few, append-nil) refl
  ]

  -- Where the logs begin with those that are listed, all are listed, and in their order.
  pub add_new-grown :
      (old new : List Log) (s : HistoryService)
      → map source_of s.pressers ≡ map identity_of old
      → map source_of (add_new chain (old ++ new) s).pressers ≡ map identity_of (old ++ new)
  unfolding add_new get_events_from_logs
  add_new-grown old new s listed =
      elim (Bool-cases (eqb (length (old ++ new)) (length s.pressers))) [
        | inl e ↦ rw e (
            listed
            ∙ ap (map identity_of) (
                sym (
                  only_old (
                    omega (
                      arith,
                      length-append {0} old new,
                      same_length,
                      (eqb_iff (length (old ++ new)) (length s.pressers)).0 e,
                    )))))
        | inr e ↦
            rw
              (
                e,
                drop-append_of_length (length s.pressers) old new same_length,
                map-append,
                map-append,
                listed,
                sources-events,
              )
              refl
      ]
    where
      same_length : length old ≡ length s.pressers
      same_length =
          sym (length-map identity_of old)
          ∙ ap length (sym listed)
          ∙ length-map source_of s.pressers

      only_old : length new ≡ 0 → old ++ new ≡ old
      only_old h = ap (◌++◌ old) (length-zero new h) ∙ append-nil old
