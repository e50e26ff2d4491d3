-- ===== src/Sdk/Client/Waiting.antt =====
-- What waiting for a message's status amounts to.
use universal_login_sdk.Prelude.{
  Result-cases, ℕ, ◌+◌, ◌*◌, ◌≤◌, ◌<◌, ◌≡◌, ◌∙◌, refl, inl, inr, Bool, true, false, not, Option,
  none, some, ◌∷◌, ◌++◌, Text, codes, length, ok, arith, ap, subst, sym, Bool-cases,
}
use universal_login_sdk.Commons.Json.{Json}
use universal_login_sdk.Sdk.RelayerApi.{get, HttpRequest, Net, Line, Api, http}
use universal_login_sdk.Sdk.RelayerApi
use universal_login_sdk.Sdk.Retry.{sleep, rounds, retry}
use universal_login_sdk.Sdk.Retry.Asked.{Asked}
use universal_login_sdk.Sdk.Retry.Rounds.{
  after_round, rounds-Asked, rounds-fuel, rounds-wanted, rounds-return,
}
use universal_login_sdk.Sdk.Values.{truthy, read}
use universal_login_sdk.Sdk.Client.{is_executed, is_not_executed, wait_for_status}

module _ (net : Net) (base_url message_hash : Text) where
  -- The request for the status.
  abbrev pub status_request : HttpRequest
  status_request = record {
    method = get;
    url = base_url ++ (codes "/wallet/execution/" ++ message_hash);
    body = none;
  }

  abbrev pub ask_status : Api Json
  ask_status = RelayerApi.get_status net base_url message_hash

  ask_status-one : (w : Line) → (ask_status w).1.requests ≡ status_request ∷ w.requests
  unfolding RelayerApi.get_status http
  ask_status-one w = refl

  ask_status-passes :
      (w : Line) → w.now + 1000 ≤ (after_round net ask_status is_not_executed 1000 w).now
  unfolding RelayerApi.get_status http sleep
  ask_status-passes w = omega arith

  wait_for_status-line :
      (w : Line)
      → (wait_for_status net base_url message_hash w).1
        ≡ (retry net ask_status is_not_executed 1000 5000 w).1
  unfolding wait_for_status
  wait_for_status-line w =
      elim (Result-cases (retry net ask_status is_not_executed 1000 5000 w).0) [
        | inl (x, e1) ↦ ground arith
        | inr (status, e1) ↦ elim (Result-cases (read (codes "error") (some status))) [
          | inl (x, e2) ↦ ground arith
          | inr (failure, e2) ↦ elim (Bool-cases (truthy failure)) [
            | inl e3 ↦ ground arith
            | inr e3 ↦ ground arith
          ]
        ]
      ]

  -- However the relayer answers and however long it takes, waiting for a status makes five requests
  -- at most, each of them the one for the status of this message.
  pub wait_for_status-Asked :
      (w : Line)
      → Asked
          (λ r. r ≡ status_request)
          5
          w.requests
          (wait_for_status net base_url message_hash w).1.requests
  unfolding retry
  wait_for_status-Asked w =
      subst (λ (l : Line). Asked (λ r. r ≡ status_request) 5 w.requests l.requests)
        (sym (wait_for_status-line w))
        (rounds-Asked net ask_status is_not_executed 1000 (λ r. r ≡ status_request)
          (λ v. (status_request, refl, ask_status-one v)) ask_status-passes 5000 5 (w.now + 5000) w
          (omega arith))

  -- The five seconds end the waiting, and never a bound on the rounds: more rounds than 5000
  -- change nothing.
  pub wait_for_status-fuel :
      (w : Line) (n : ℕ)
      → 5000 ≤ n
      → retry net ask_status is_not_executed 1000 5000 w
        ≡ rounds net ask_status is_not_executed 1000 n (w.now + 5000) w
  unfolding retry
  wait_for_status-fuel w n enough =
      rounds-fuel net ask_status is_not_executed 1000 (λ v. omega (arith, ask_status-passes v)) 5000
        n (w.now + 5000) w (omega arith) (omega arith)

  -- What is tested of a status that is returned.
  wait_for_status_inv :
      (w : Line) (status : Json)
      → (wait_for_status net base_url message_hash w).0 ≡ ok status
      → ((retry net ask_status is_not_executed 1000 5000 w).0 ≡ ok status)
        × ((failure : Option Json) × (read (codes "error") (some status) ≡ ok failure)
            × (truthy failure ≡ false))
  unfolding wait_for_status
  wait_for_status_inv w status done =
      elim (Result-cases (retry net ask_status is_not_executed 1000 5000 w).0) [
        | inl (x, e1) ↦ absurd (ground arith)
        | inr (found, e1) ↦ elim (Result-cases (read (codes "error") (some found))) [
          | inl (x, e2) ↦ absurd (ground arith)
          | inr (failure, e2) ↦ elim (Bool-cases (truthy failure)) [
            | inl e3 ↦ absurd (ground arith)
            | inr e3 ↦
                let same : found ≡ status = ground arith in
                (
                  e1 ∙ ap ok same,
                  (failure, subst (λ x. read (codes "error") (some x) ≡ ok failure) same e2, e3),
                )
          ]
        ]
      ]

  executed_hash :
      (status : Json) (failure : Option Json)
      → is_not_executed status ≡ ok false
      → read (codes "error") (some status) ≡ ok failure
      → truthy failure ≡ false
      → (hash : Option Json) × (read (codes "transactionHash") (some status) ≡ ok hash)
        × (truthy hash ≡ true)
  unfolding is_not_executed is_executed
  executed_hash status failure executed e1 none_failed =
      elim (Result-cases (read (codes "transactionHash") (some status))) [
        | inl (x, e2) ↦ absurd (ground arith)
        | inr (hash, e2) ↦ elim (Bool-cases (truthy hash)) [
          | inl e3 ↦ (hash, e2, e3)
          | inr e3 ↦ absurd (ground arith)
        ]
      ]

  -- A status that is returned has a transaction hash, and no error.
  pub wait_for_status-executed :
      (w : Line) (status : Json)
      → (wait_for_status net base_url message_hash w).0 ≡ ok status
      → ((hash : Option Json) × (read (codes "transactionHash") (some status) ≡ ok hash)
          × (truthy hash ≡ true))
        × ((failure : Option Json) × (read (codes "error") (some status) ≡ ok failure)
            × (truthy failure ≡ false))
  unfolding retry
  wait_for_status-executed w status done =
      let (found, (failure, e1, none_failed)) = wait_for_status_inv w status done in
      let wanted =
        rounds-wanted net ask_status is_not_executed 1000 5000 (w.now + 5000) w status found in
      (executed_hash status failure wanted e1 none_failed, (failure, e1, none_failed))

  is_not_executed_lem :
      (status : Json) (done : Bool)
      → is_executed status ≡ ok done
      → is_not_executed status ≡ ok (not done)
  unfolding is_not_executed
  is_not_executed_lem status done e1 = ground arith

  -- The error of a status is missing, null or empty.
  abbrev pub HasNoError : Json → Type 0
  HasNoError status =
      (failure : Option Json) × (read (codes "error") (some status) ≡ ok failure)
      × (truthy failure ≡ false)

  wait_for_status_lem :
      (status : Json) (w : Line)
      → (retry net ask_status is_not_executed 1000 5000 w).0 ≡ ok status
      → HasNoError status
      → wait_for_status net base_url message_hash w
        ≡ (ok status, (retry net ask_status is_not_executed 1000 5000 w).1)
  unfolding wait_for_status
  wait_for_status_lem status w e1 (failure, e2, e3) = ground arith

  -- Where each request is answered, with an error that is missing, null or empty, in less than so many milliseconds, and the
  -- message is executed from some request on that comes before five seconds are over, a status is
  -- returned.
  pub wait_for_status-returns :
      (extra wanted_from : ℕ)
      → ((v : Line)
          → (status : Json) × (done : Bool) × ((ask_status v).0 ≡ ok status)
            × (is_executed status ≡ ok done)
            × HasNoError status
            × (wanted_from ≤ length v.requests → done ≡ true))
      → ((v : Line) → net.duration v.requests + net.lateness (status_request ∷ v.requests) ≤ extra)
      → (w : Line) (j : ℕ) → (1000 + extra) * j < 5000
      → wanted_from ≤ length w.requests + j
      → (status : Json) × (w' : Line) × (wait_for_status net base_url message_hash w
          ≡ (ok status, w'))
  unfolding retry sleep RelayerApi.get_status http
  wait_for_status-returns extra wanted_from answers soon w j time wanted =
      let (status, w', e, good) =
        rounds-return net ask_status is_not_executed 1000 HasNoError (1000 + extra) wanted_from
          (λ v.
            let (a, done, e1, e2, e3, last) = answers v in
            (a, not done, e1, is_not_executed_lem a done e2, e3, λ h. ap not (last h)))
          (λ v. omega (arith, soon v)) (λ v. omega arith) 4999 j (w.now + 5000) w (omega arith)
          (omega arith) wanted in
      (status, _, wait_for_status_lem status w (ap (λ r. r.0) e) good)
