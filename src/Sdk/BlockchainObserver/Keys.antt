-- ===== src/Sdk/BlockchainObserver/Keys.antt =====
-- Which keys a callback is called with.
use universal_login_sdk.Prelude.{
  Result-cases, ◌≡◌, ◌≢◌, ◌∙◌, refl, inl, inr, true, false, Option, none, some, List, [], ◌∷◌, ◌++◌,
  Text, codes, ◌==◌, ==_iff, ==_ne, All, All-append, append-nil, append_assoc, lift, ◌>>=◌, ◌>>◌,
  arith, ap, subst, sym, Bool-cases,
}
use mathlib.Core.List.{Memᴰ}
use universal_login_sdk.Sdk.Observers.{Listener, Emitter}
use universal_login_sdk.Sdk.BlockchainObserver.{
  Log, KeyArgs, KeyCall, EventNode, BlockchainObserver, Fetching, is_wanted, emit, parse_args,
  notify, deliver, get_logs, fetch_for, fetch_events_of_type, read_block, fetch_events,
}

-- The calls that were made are those before, and then only such calls; the emitters are the same.
abbrev pub Added : (KeyCall → Type 0) → BlockchainObserver → BlockchainObserver → Type 0
Added P o o' =
    (later : List KeyCall) × (o'.calls ≡ o.calls ++ later)
    × All P later
    × (o'.emitters ≡ o.emitters)

-- The callback was subscribed with a filter that asks for this key.
abbrev pub IsAsked : List Emitter → KeyCall → Type 0
IsAsked emitters c =
    (e : Emitter) × Memᴰ e emitters
    × (l : Listener) × Memᴰ l e.listeners
    × (l.callback ≡ c.callback)
    × (e.filter.key ≡ some c.args.key)

-- No key is the text that the code compares with.
abbrev pub IsKeyed : Emitter → Type 0
IsKeyed e = e.filter.key ≢ some (codes "undefined")

Added-none :
    (P : KeyCall → Type 0) (o o' : BlockchainObserver)
    → o'.calls ≡ o.calls
    → o'.emitters ≡ o.emitters
    → Added P o o'
Added-none P o o' calls emitters = ([], calls ∙ sym (append-nil o.calls), tt, emitters)

Added-trans :
    (P : KeyCall → Type 0) (o o' o'' : BlockchainObserver)
    → Added P o o'
    → Added P o' o''
    → Added P o o''
Added-trans P o o' o'' (first, e1, all1, s1) (second, e2, all2, s2) = (
  first ++ second,
  e2 ∙ ap (λ calls. calls ++ second) e1 ∙ append_assoc o.calls first second,
  All-append P first second all1 all2,
  s2 ∙ s1,
)

emit-All :
    (P : KeyCall → Type 0) (event_type : Text) (args : KeyArgs) (listeners : List Listener)
    → ((l : Listener) → Memᴰ l listeners → P (record { callback = l.callback; args = args }))
    → All P (emit event_type args listeners)
unfolding emit
emit-All P event_type args [] each = tt
emit-All P event_type args (l ∷ listeners) each = elim (Bool-cases (l.event_type == event_type)) [
  | inl e1 ↦ rw e1 (
    each l (Memᴰ.head refl),
    emit-All P event_type args listeners (λ k at. each k (Memᴰ.tail at)),
  )
  | inr e1 ↦ rw e1 (emit-All P event_type args listeners (λ k at. each k (Memᴰ.tail at)))
]

is_wanted_key :
    (wanted : Option Text) (key : Text)
    → wanted ≢ some (codes "undefined")
    → is_wanted wanted key ≡ true
    → wanted ≡ some key
is_wanted_key none key keyed e1 = cc
is_wanted_key (some wanted) key keyed e1 =
    let other = ==_ne wanted (codes "undefined") (λ p. keyed (ap some p)) in
    let same : (wanted == key) ≡ true = ground arith in ap some ((==_iff wanted key).0 same)

module _ (node : EventNode) (P : KeyCall → Type 0) where
  notify_wanted :
      (event_type : Text) (emitter : Emitter) (args : KeyArgs) (o : BlockchainObserver)
      → is_wanted emitter.filter.key args.key ≡ true
      → (notify node event_type emitter args o).1
        ≡ record o { calls = o.calls ++ emit event_type args emitter.listeners }
  unfolding notify
  notify_wanted event_type emitter args o e1 = rw e1

  notify_unwanted :
      (event_type : Text) (emitter : Emitter) (args : KeyArgs) (o : BlockchainObserver)
      → is_wanted emitter.filter.key args.key ≡ false
      → (notify node event_type emitter args o).1 ≡ o
  unfolding notify
  notify_unwanted event_type emitter args o e1 = rw e1

  notify-Added :
      (event_type : Text) (emitter : Emitter) (args : KeyArgs) (o : BlockchainObserver)
      → IsKeyed emitter
      → ((l : Listener) (args : KeyArgs)
          → Memᴰ l emitter.listeners
          → emitter.filter.key ≡ some args.key
          → P (record { callback = l.callback; args = args }))
      → Added P o (notify node event_type emitter args o).1
  notify-Added event_type emitter args o keyed each =
      elim (Bool-cases (is_wanted emitter.filter.key args.key)) [
        | inl e1 ↦ (
          emit event_type args emitter.listeners,
          ap (λ (v : BlockchainObserver). v.calls) (notify_wanted event_type emitter args o e1),
          emit-All P event_type args emitter.listeners
              (λ l at. each l args at (is_wanted_key emitter.filter.key args.key keyed e1)),
          ap (λ (v : BlockchainObserver). v.emitters) (notify_wanted event_type emitter args o e1),
        )
        | inr e1 ↦
            Added-none P o (notify node event_type emitter args o).1
              (ap (λ (v : BlockchainObserver). v.calls)
                (notify_unwanted event_type emitter args o e1))
              (ap (λ (v : BlockchainObserver). v.emitters)
                (notify_unwanted event_type emitter args o e1))
      ]

  -- A call, and then what follows it.
  bind-Added :
      {A B : Type 0} (m : Fetching A) (f : A → Fetching B) (o : BlockchainObserver)
      → Added P o (m o).1
      → ((a : A) (v : BlockchainObserver) → v.emitters ≡ o.emitters → Added P v (f a v).1)
      → Added P o ((m >>= f) o).1
  bind-Added m f o first rest = elim (Result-cases (m o).0) [
    | inl (x, e1) ↦
        let same : ((m >>= f) o).1 ≡ (m o).1 = ground arith in subst (Added P o) (sym same) first
    | inr (a, e1) ↦
        let same : ((m >>= f) o).1 ≡ (f a (m o).1).1 = ground arith in
        let (_, _, _, kept) = first in
        subst (Added P o) (sym same)
          (Added-trans P o (m o).1 (f a (m o).1).1 first (rest a (m o).1 kept))
  ]

  deliver-Added :
      (event_type : Text) (emitter : Emitter) (events : List Log) (o : BlockchainObserver)
      → IsKeyed emitter
      → ((l : Listener) (args : KeyArgs)
          → Memᴰ l emitter.listeners
          → emitter.filter.key ≡ some args.key
          → P (record { callback = l.callback; args = args }))
      → Added P o (deliver node event_type emitter events o).1
  unfolding deliver
  deliver-Added event_type emitter [] o keyed each = Added-none P o o refl refl
  deliver-Added event_type emitter (event ∷ events) o keyed each =
      bind-Added (lift (parse_args node event_type event))
        (λ args. notify node event_type emitter args >> deliver node event_type emitter events) o
        (Added-none P o o refl refl)
        (λ args v _.
          bind-Added (notify node event_type emitter args)
            (λ done. deliver node event_type emitter events) v
            (notify-Added event_type emitter args v keyed each)
            (λ done u _. deliver-Added event_type emitter events u keyed each))

module _ (node : EventNode) where
  fetch_for-Added :
      (P : KeyCall → Type 0) (event_type : Text) (emitters : List Emitter) (o : BlockchainObserver)
      → All IsKeyed emitters
      → ((c : KeyCall) → IsAsked emitters c → P c)
      → Added P o (fetch_for node event_type emitters o).1
  unfolding fetch_for get_logs
  fetch_for-Added P event_type [] o keyed each = Added-none P o o refl refl
  fetch_for-Added P event_type (emitter ∷ emitters) o (keyed, others) each =
      bind-Added node P (get_logs node event_type emitter.filter)
        (λ events. deliver node event_type emitter events >> fetch_for node event_type emitters) o
        (Added-none P o (get_logs node event_type emitter.filter o).1 refl refl)
        (λ events v _.
          bind-Added node P (deliver node event_type emitter events)
            (λ done. fetch_for node event_type emitters) v
            (deliver-Added node P event_type emitter events v keyed (λ l args at asked.
              each (record { callback = l.callback; args = args })
                (emitter, Memᴰ.head refl, l, at, refl, asked)))
            (λ done u _.
              fetch_for-Added P event_type emitters u others
                (λ c (e, at, l, on, same, asked). each c (e, Memᴰ.tail at, l, on, same, asked))))

  fetch_events_of_type-Added :
      (event_type : Text) (emitters : List Emitter) (o : BlockchainObserver)
      → o.emitters ≡ emitters
      → All IsKeyed emitters
      → Added (IsAsked emitters) o (fetch_events_of_type node event_type o).1
  unfolding fetch_events_of_type
  fetch_events_of_type-Added event_type emitters o same keyed =
      subst (λ es. Added (IsAsked emitters) o (fetch_for node event_type es o).1) (sym same)
        (fetch_for-Added (IsAsked emitters) event_type emitters o keyed (λ c asked. asked))

  read_block-Added :
      (P : KeyCall → Type 0) (o : BlockchainObserver) → Added P o (read_block node o).1
  unfolding read_block
  read_block-Added P o = elim (Result-cases (node.get_block_number o.asked)) [
    | inl (x, e1) ↦ ([], ground (arith, append-nil o.calls), tt, ground arith)
    | inr (n, e1) ↦ ([], ground (arith, append-nil o.calls), tt, ground arith)
  ]

  -- Where no filter names the key 'undefined', whatever the node answers, a tick calls a callback only
  -- with a key that the callback's own filter names, and keeps the calls before: a callback whose
  -- filters have no key is not called.
  pub fetch_events-IsAsked :
      (o : BlockchainObserver)
      → All IsKeyed o.emitters
      → Added (IsAsked o.emitters) o (fetch_events node o).1
  unfolding fetch_events
  fetch_events-IsAsked o keyed =
      bind-Added node (IsAsked o.emitters) (fetch_events_of_type node (codes "KeyAdded"))
        (λ done. fetch_events_of_type node (codes "KeyRemoved") >> read_block node) o
        (fetch_events_of_type-Added (codes "KeyAdded") o.emitters o refl keyed)
        (λ done v same.
          bind-Added node (IsAsked o.emitters) (fetch_events_of_type node (codes "KeyRemoved"))
            (λ done. read_block node) v
            (fetch_events_of_type-Added (codes "KeyRemoved") o.emitters v same keyed)
            (λ done u _. read_block-Added (IsAsked o.emitters) u))
