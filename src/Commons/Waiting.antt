-- ===== src/Commons/Waiting.antt =====
-- core/utils/wait.ts: a predicate, or an assertion, that is tried again until it holds or the time
-- is over. Where a tick is positive, the fuel is enough; with a tick of 0 the source may go on for
-- ever. What `sleep` does to the world is a parameter.
use universal_login_sdk.Prelude.{
  ℕ, zero, suc, ◌+◌, ◌≤◌, ◌<◌, ◌≡◌, ◌∙◌, sym, refl, inl, inr, ◌⊎◌, Bool, true, false, leb, ltb,
  Option, none, some, Text, codes, Result, ok, err, Result-cases, Bool-cases, Exec, pure, raise,
  modify, ensure, ◌>>=◌, ◌>>◌, if◌then◌else◌, arith,
}

-- What `waitUntil` throws.
unfoldable pub timed_out : Text
timed_out = codes "Timeout"

module _ {S : Type 0} (sleep : ℕ → S → S) (tick timeout : ℕ) where
  module _ (predicate : Exec Text S Bool) where
    -- The loop of `waitUntil`, for at most so many rounds.
    unfoldable pub until_rounds : ℕ → ℕ → Exec Text S Bool
    until_rounds zero elapsed = raise timed_out
    until_rounds (suc n) elapsed = do
      met ← predicate
      elim met [
        | true ↦ pure true
        | false ↦ (do
          ensure (leb elapsed timeout) timed_out
          modify (sleep tick)
          until_rounds n (elapsed + tick))
      ]

    -- `waitUntil`: one round more than there are milliseconds, and the one that throws.
    unfoldable pub wait_until : Exec Text S Bool
    wait_until = until_rounds (suc (suc timeout)) 0

    until_rounds-suc :
        (n more elapsed : ℕ)
        → ((s : S)
            → elapsed ≤ timeout
            → until_rounds n (elapsed + tick) s ≡ until_rounds more (elapsed + tick) s)
        → (s : S) → until_rounds (suc n) elapsed s ≡ until_rounds (suc more) elapsed s
    unfolding until_rounds
    until_rounds-suc n more elapsed same s = elim (Result-cases ((predicate s).0)) [
      | inl (x, e) ↦ ground arith
      | inr (true, e) ↦ ground arith
      | inr (false, e) ↦ elim (Bool-cases (leb elapsed timeout)) [
        | inl e2 ↦ let same' = same (sleep tick (predicate s).1) (ground arith) in ground arith
        | inr e2 ↦ ground arith
      ]
    ]

    -- Where a tick is positive, any number of rounds that exceeds the milliseconds that are left
    -- does the same.
    pub until_rounds-fuel :
        0 < tick
        → (n more elapsed : ℕ) (s : S) → timeout < elapsed + n
        → timeout < elapsed + more
        → until_rounds (suc n) elapsed s ≡ until_rounds (suc more) elapsed s
    until_rounds-fuel moves zero more elapsed s enough enough' =
        until_rounds-suc zero more elapsed (λ s' time. let bad : ⊥ = omega arith in elim bad [ ]) s
    until_rounds-fuel moves (suc n) zero elapsed s enough enough' =
        until_rounds-suc (suc n) zero elapsed (λ s' time. let bad : ⊥ = omega arith in elim bad [ ])
          s
    until_rounds-fuel moves (suc n) (suc more) elapsed s enough enough' =
        until_rounds-suc (suc n) (suc more) elapsed
          (λ s' time.
            until_rounds-fuel moves n more (elapsed + tick) s' (omega arith) (omega arith))
          s

  module _ (callback : Exec Text S (Unit {0})) where
    -- What `try` makes of a call, by what goes on after it failed.
    abbrev pub tried :
        (Text → S → Result (Option Text) (Unit {0}) × S)
        → Result Text (Unit {0}) × S
        → Result (Option Text) (Unit {0}) × S
    tried again (ok u, s) = (ok u, s)
    tried again (err x, s) = again x s

    -- The loop of `waitExpect`, for at most so many rounds; `none` is `undefined`.
    unfoldable pub expect_rounds : ℕ → ℕ → Option Text → Exec (Option Text) S (Unit {0})
    expect_rounds zero elapsed last_error s = (err last_error, s)
    expect_rounds (suc n) elapsed last_error s =
        let again =
          tried (λ x s'. expect_rounds n (elapsed + tick) (some x) (sleep tick s')) (callback s) in
        if ltb elapsed timeout then again else (err last_error, s)

    -- `waitExpect`
    unfoldable pub wait_expect : Exec (Option Text) S (Unit {0})
    wait_expect = expect_rounds timeout 0 none

    -- A round in time that throws: the callback threw, and so did the rounds after it.
    expect_rounds-round :
        (n elapsed : ℕ) (last_error : Option Text) (s : S) (e : Option Text)
        → elapsed < timeout
        → (expect_rounds (suc n) elapsed last_error s).0 ≡ err e
        → (x : Text) × ((callback s).0 ≡ err x)
          × ((expect_rounds n (elapsed + tick) (some x) (sleep tick (callback s).1)).0 ≡ err e)
    unfolding expect_rounds
    expect_rounds-round n elapsed last_error s e time thrown =
        elim (Result-cases ((callback s).0)) [
          | inr (u, called) ↦ absurd (ground arith)
          | inl (x, called) ↦ (x, called, ground arith)
        ]

    expect_rounds-stop :
        (n elapsed : ℕ) (last_error : Option Text) (s : S)
        → timeout ≤ elapsed
        → expect_rounds n elapsed last_error s ≡ (err last_error, s)
    unfolding expect_rounds
    expect_rounds-stop zero elapsed last_error s over = refl
    expect_rounds-stop (suc n) elapsed last_error s over = ground arith

    -- Rounds throw what they were given, or what the callback threw.
    expect_rounds-thrown :
        (n elapsed : ℕ) (last_error : Option Text) (s : S) (e : Option Text)
        → (expect_rounds n elapsed last_error s).0 ≡ err e
        → (e ≡ last_error)
          ⊎ ((before : S) × (x : Text) × (e ≡ some x) × ((callback before).0 ≡ err x))
    unfolding expect_rounds
    expect_rounds-thrown zero elapsed last_error s e thrown = inl (ground arith)
    expect_rounds-thrown (suc n) elapsed last_error s e thrown =
        elim (Bool-cases (ltb elapsed timeout)) [
          | inr over ↦ inl (ground arith)
          | inl time ↦
              let (x, called, thrown') =
                expect_rounds-round n elapsed last_error s e (ground arith) thrown in
              elim (expect_rounds-thrown n (elapsed + tick) (some x) (sleep tick (callback s).1) e
                thrown') [ inl same ↦ inr (s, x, same, called) | inr other ↦ inr other ]
        ]

    -- With a timeout that is positive, what rounds throw from the start is never undefined: the
    -- callback threw it.
    pub expect_rounds-callback :
        (n : ℕ) (s : S) (e : Option Text)
        → 0 < timeout
        → (expect_rounds (suc n) 0 none s).0 ≡ err e
        → (before : S) × (x : Text) × (e ≡ some x) × ((callback before).0 ≡ err x)
    expect_rounds-callback n s e time thrown =
        let (x, called, thrown') = expect_rounds-round n 0 none s e time thrown in
        elim (expect_rounds-thrown n (0 + tick) (some x) (sleep tick (callback s).1) e thrown') [
          | inl same ↦ (s, x, same, called)
          | inr other ↦ other
        ]

    -- With a timeout of 0 the callback is not called, and what is thrown is undefined.
    pub wait_expect-zero : (s : S) → timeout ≡ 0 → wait_expect s ≡ (err none, s)
    unfolding wait_expect
    wait_expect-zero s over = expect_rounds-stop timeout 0 none s (omega arith)

    expect_rounds-suc :
        (n more elapsed : ℕ) (last_error : Option Text) (s : S)
        → ((x : Text)
            → expect_rounds n (elapsed + tick) (some x) (sleep tick (callback s).1)
              ≡ expect_rounds more (elapsed + tick) (some x) (sleep tick (callback s).1))
        → expect_rounds (suc n) elapsed last_error s ≡ expect_rounds (suc more) elapsed last_error s
    unfolding expect_rounds
    expect_rounds-suc n more elapsed last_error s same = elim (Bool-cases (ltb elapsed timeout)) [
      | inr over ↦ ground arith
      | inl time ↦ elim (Result-cases ((callback s).0)) [
        | inr (u, called) ↦ ground arith
        | inl (x, called) ↦ let same' = same x in ground arith
      ]
    ]

    -- Where a tick is positive, any number of rounds that the milliseconds left do not exceed does
    -- the same.
    pub expect_rounds-fuel :
        0 < tick
        → (n more elapsed : ℕ) (last_error : Option Text) (s : S) → timeout ≤ elapsed + n
        → timeout ≤ elapsed + more
        → expect_rounds n elapsed last_error s ≡ expect_rounds more elapsed last_error s
    expect_rounds-fuel moves zero more elapsed last_error s enough enough' =
        expect_rounds-stop zero elapsed last_error s (omega arith)
        ∙ sym (expect_rounds-stop more elapsed last_error s (omega arith))
    expect_rounds-fuel moves (suc n) zero elapsed last_error s enough enough' =
        expect_rounds-stop (suc n) elapsed last_error s (omega arith)
        ∙ sym (expect_rounds-stop zero elapsed last_error s (omega arith))
    expect_rounds-fuel moves (suc n) (suc more) elapsed last_error s enough enough' =
        expect_rounds-suc n more elapsed last_error s (λ x.
          expect_rounds-fuel moves n more (elapsed + tick) (some x) (sleep tick (callback s).1)
            (omega arith) (omega arith))
