-- ===== src/Sdk/Client/Posting.antt =====
-- The requests that a message is handed over and waited for with.
use universal_login_sdk.Prelude.{
  Result-cases, ◌≡◌, refl, inl, inr, true, Option, none, some, [], ◌∷◌, ◌++◌, Text, codes, arith,
  ap, subst, sym, Bool-cases, Option-cases,
}
use universal_login_sdk.Commons.Ethers.{Ethers}
use universal_login_sdk.Commons.Json.{Json}
use universal_login_sdk.Commons.Message.{SignedMessage}
use universal_login_sdk.Commons.Signing.{PartialMessage}
use universal_login_sdk.Sdk.RelayerApi.{get, post, HttpRequest, Net, Line, Api, http, catch_wrapped}
use universal_login_sdk.Sdk.RelayerApi
use universal_login_sdk.Sdk.Retry.Asked.{Asked, weaken-Asked}
use universal_login_sdk.Sdk.Values.{truthy, read, print_of}
use universal_login_sdk.Sdk.Client.{
  Client, Provider, message_json, given, wait_for_status, get_nonce, nonce_of, settled,
}
use universal_login_sdk.Sdk.Client.Waiting.{status_request, wait_for_status-Asked}

abbrev pub IsGet : HttpRequest → Type 0
IsGet r = r.method ≡ get

catch_wrapped-line : {A : Type 0} (call : Api A) (w : Line) → (catch_wrapped call w).1 ≡ (call w).1
unfolding catch_wrapped
catch_wrapped-line call w = elim (Result-cases (call w).0) [
  | inl (x, e1) ↦ ground arith
  | inr (a, e1) ↦ ground arith
]

module _ (e : Ethers) (net : Net) (base_url : Text) (provider : Provider)
    (default_payment_options : PartialMessage) where
  -- The request that hands a message over.
  abbrev pub posted : SignedMessage → HttpRequest
  posted m = record {
    method = post;
    url = base_url ++ codes "/wallet/execution";
    body = some (message_json m);
  }

  pub posted-line :
      (m : SignedMessage) (w : Line)
      → (RelayerApi.execute net base_url (message_json m) w).1.requests ≡ posted m ∷ w.requests
  unfolding RelayerApi.execute http
  posted-line m w =
      ap (λ (l : Line). l.requests)
        (catch_wrapped-line
          (http net base_url post (codes "/wallet/execution") (some (message_json m))) w)

  pub nonce_of-state :
      (message : PartialMessage) (private_key : Text) (c : Client)
      → (nonce_of e net base_url provider default_payment_options message private_key c).1 ≡ c
  unfolding nonce_of get_nonce
  nonce_of-state message private_key c = elim (Option-cases (given message.nonce)) [
    | inr (nonce, e1) ↦ ground arith
    | inl e1 ↦ elim (Result-cases (provider.last_nonce c.line.requests message.from private_key)) [
      | inl (x, e2) ↦ ground arith
      | inr (n, e2) ↦ ground arith
    ]
  ]

  settled-line :
      (hash status : Json) (c : Client)
      → truthy (some hash) ≡ true
      → (settled e net base_url provider default_payment_options (some hash) (some status) c).1.line
        ≡ (wait_for_status net base_url (print_of (some hash)) c.line).1
  unfolding settled
  settled-line hash status c e0 =
      elim (Result-cases (wait_for_status net base_url (print_of (some hash)) c.line).0) [
        | inl (x, e1) ↦ ground arith
        | inr (final, e1) ↦ elim (Result-cases (read (codes "error") (some final))) [
          | inl (x, e2) ↦ ground arith
          | inr (failure, e2) ↦ elim (Bool-cases (truthy failure)) [
            | inl e3 ↦ ground arith
            | inr e3 ↦ elim (Result-cases (read (codes "transactionHash") (some final))) [
              | inl (x, e4) ↦ ground arith
              | inr (transaction_hash, e4) ↦ ground arith
            ]
          ]
        ]
      ]

  pub settled-Asked :
      (hash status : Option Json) (c : Client)
      → Asked IsGet 5 c.line.requests
          (settled e net base_url provider default_payment_options hash status c).1.line.requests
  unfolding settled
  settled-Asked none status c = ([], refl, tt, omega arith)
  settled-Asked (some hash) none c = ([], refl, tt, omega arith)
  settled-Asked (some hash) (some status) c = elim (Bool-cases (truthy (some hash))) [
    | inr e0 ↦
        let same : (settled e net base_url provider default_payment_options (some hash)
              (some status) c).1.line
            ≡ c.line =
          ground arith in
        ([], ap (λ (l : Line). l.requests) same, tt, omega arith)
    | inl e0 ↦
        subst (λ (l : Line). Asked IsGet 5 c.line.requests l.requests)
          (sym (settled-line hash status c e0))
          (weaken-Asked (λ r. r ≡ status_request net base_url (print_of (some hash))) IsGet 5
            c.line.requests _ (λ r same. ap (λ (q : HttpRequest). q.method) same)
            (wait_for_status-Asked net base_url (print_of (some hash)) c.line))
  ]
