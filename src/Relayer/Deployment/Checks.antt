-- ===== src/Relayer/Deployment/Checks.antt =====
-- What is checked before a wallet is deployed.
use mathlib.Core.List.{Memᴰ}
use universal_login_sdk.Prelude.{
  Result-cases, ℕ, ◌≤◌, ◌≡◌, ◌≢◌, ==_iff, subst, refl, ◌⊎◌, inl, inr, true, false, not, Option,
  none, some, List, [], ◌∷◌, ◌++◌, Text, ◌==◌, leb, eqb, all, find?, arith, Result, ok, err,
  Bool-cases, Option-cases,
}
use universal_login_sdk.Commons.Ethers.{Ethers}
use universal_login_sdk.Relayer.Errors.{
  Exception, ens_name_taken, invalid_ens_domain, not_enough_balance,
}
use universal_login_sdk.Relayer.Database.{Chain}
use universal_login_sdk.Relayer.Execution.{ether_address}
use universal_login_sdk.Relayer.Deployment.{
  parse_domain, SupportedToken, DomainInfo, DomainsInfo, Ens, Creation, Config, Factory, bad_name,
  find_registrar, printed, args_with, args_for, resolve_name, get_balance,
  find_token_with_required_balance, compute_contract_address, is_truthy, creation_of, deploy,
}

-- A label without a dot, a dot and a domain are told apart again.
pub parse_domain-append :
    (label domain : Text)
    → all (λ c. not (eqb c b'.')) label ≡ true
    → parse_domain (label ++ b'.' ∷ domain) ≡ (label, some domain)
unfolding parse_domain
parse_domain-append [] domain h = refl
parse_domain-append (c ∷ label) domain h = ground (arith, parse_domain-append label domain)

-- The address of a token that was found.
abbrev pub address_of : Option SupportedToken → Option Text
address_of none = none
address_of (some t) = some t.address

-- A domain that is found is one of the relayer's.
find_registrar-Mem :
    (infos : DomainsInfo) (domain : Text) (info : DomainInfo)
    → find_registrar infos domain ≡ some info
    → Memᴰ (domain, info) infos
unfolding find_registrar
find_registrar-Mem [] domain info h = absurd (ground arith)
find_registrar-Mem ((d, i) ∷ infos) domain info h = elim (Bool-cases (d == domain)) [
  | inl e1 ↦
      let same : i ≡ info = ground arith in
      subst (λ x. Memᴰ (domain, x) ((d, i) ∷ infos)) same
        (subst (λ x. Memᴰ (x, i) ((d, i) ∷ infos)) ((==_iff d domain).0 e1) (Memᴰ.head refl))
  | inr e1 ↦ Memᴰ.tail (find_registrar-Mem infos domain info (ground arith))
]

module _ (e : Ethers) (ens : Ens) (chain : Chain) (config : Config) (factory : Factory) where
  resolve_name-same :
      (name : Text) (sent : List Creation)
      → (r : Result Exception (Option Text)) × (resolve_name e ens chain config factory name sent
          ≡ (r, sent))
  unfolding resolve_name
  resolve_name-same name sent = elim (Option-cases (ens.namehash name)) [
    | inl e1 ↦ (err bad_name, ground arith)
    | inr (node, e1) ↦ elim (Result-cases (ens.resolver node)) [
      | inl (x, e2) ↦ (err x, ground arith)
      | inr (resolver, e2) ↦ elim (Bool-cases (resolver == ether_address)) [
        | inl e3 ↦ (ok none, ground arith)
        | inr e3 ↦ elim (Result-cases (ens.addr resolver node)) [
          | inl (x, e4) ↦ (err x, ground arith)
          | inr (address, e4) ↦ (ok (some address), ground arith)
        ]
      ]
    ]
  ]

  args_for-same :
      (infos : DomainsInfo) (name : Text) (sent : List Creation)
      → (r : Result Exception (Option (List Text))) × (args_for e ens chain config factory infos
            name sent
          ≡ (r, sent))
  unfolding args_for
  args_for-same infos name sent =
      elim (Option-cases
        (ens.namehash ((parse_domain name).0 ++ b'.' ∷ printed (parse_domain name).1))) [
          | inl e1 ↦ (err bad_name, ground arith)
          | inr (node, e1) ↦ (
            ok (
                args_with e ens chain config factory (parse_domain name).0 name node
                  (find_registrar infos (printed (parse_domain name).1))),
            ground arith,
          )
        ]

  -- What the chain answers for the balance of an address, in ether or in a token.
  abbrev pub HasBalance : Text → Text → ℕ → Type 0
  HasBalance address token balance =
      ((token ≡ ether_address) × (chain.get_balance address ≡ ok balance))
      ⊎ ((token ≢ ether_address) × (chain.balance_of token address ≡ ok balance))

  get_balance-HasBalance :
      (address token : Text) (balance : ℕ)
      → get_balance e ens chain config factory address token ≡ ok balance
      → HasBalance address token balance
  unfolding get_balance
  get_balance-HasBalance address token balance h = elim (Bool-cases (token == ether_address)) [
    | inl e1 ↦ inl ((==_iff token ether_address).0 e1, ground arith)
    | inr e1 ↦ inr (λ p. absurd (ground (arith, (==_iff token ether_address).1 p)), ground arith)
  ]

  -- A token that is found is a supported one, of which the address holds enough.
  found_token_lem :
      (ts : List SupportedToken) (address a : Text)
      → find_token_with_required_balance e ens chain config factory ts address ≡ ok (some a)
      → (t : SupportedToken) × (balance : ℕ) × Memᴰ t ts
        × HasBalance address t.address balance
        × (t.minimal_amount ≤ balance)
  unfolding find_token_with_required_balance
  found_token_lem [] address a h = absurd (ground arith)
  found_token_lem (t ∷ ts) address a h =
      elim (Result-cases (get_balance e ens chain config factory address t.address)) [
        | inl (x, e1) ↦ absurd (ground arith)
        | inr (balance, e1) ↦ elim (Bool-cases (leb t.minimal_amount balance)) [
          | inl e2 ↦ (
            t,
            balance,
            Memᴰ.head refl,
            get_balance-HasBalance address t.address balance e1,
            ground arith,
          )
          | inr e2 ↦
              let (u, b, at, held, enough) = found_token_lem ts address a (ground arith) in
              (u, b, Memᴰ.tail at, held, enough)
        ]
      ]

  -- A name that is not taken has no resolver, or an empty address.
  free_name_lem :
      (name : Text) (sent : List Creation) (taken : Option Text)
      → resolve_name e ens chain config factory name sent ≡ (ok taken, sent)
      → is_truthy taken ≡ false
      → (node : Text) × (resolver : Text) × (ens.namehash name ≡ some node)
        × (ens.resolver node ≡ ok resolver)
        × ((resolver ≡ ether_address) ⊎ (ens.addr resolver node ≡ ok []))
  unfolding resolve_name
  free_name_lem name sent taken h untaken = elim (Option-cases (ens.namehash name)) [
    | inl e1 ↦ absurd (ground arith)
    | inr (node, e1) ↦ elim (Result-cases (ens.resolver node)) [
      | inl (x, e2) ↦ absurd (ground arith)
      | inr (resolver, e2) ↦ elim (Bool-cases (resolver == ether_address)) [
        | inl e3 ↦ (node, resolver, e1, e2, inl ((==_iff resolver ether_address).0 e3))
        | inr e3 ↦ elim (Result-cases (ens.addr resolver node)) [
          | inl (x, e4) ↦ absurd (ground arith)
          | inr ([], e4) ↦ (node, resolver, e1, e2, inr e4)
          | inr (c ∷ t, e4) ↦ absurd (ground arith)
        ]
      ]
    ]
  ]

  -- A name with arguments is under a domain of the relayer.
  served_lem :
      (infos : DomainsInfo) (name : Text) (sent : List Creation) (ens_args : List Text)
      → args_for e ens chain config factory infos name sent ≡ (ok (some ens_args), sent)
      → (info : DomainInfo) × Memᴰ (printed (parse_domain name).1, info) infos
  unfolding args_for
  served_lem infos name sent ens_args h =
      elim (Option-cases (find_registrar infos (printed (parse_domain name).1))) [
        | inr (info, e1) ↦ (info, find_registrar-Mem infos (printed (parse_domain name).1) info e1)
        | inl e1 ↦
            elim (Option-cases
              (ens.namehash ((parse_domain name).0 ++ b'.' ∷ printed (parse_domain name).1))) [
                | inl e2 ↦ absurd (ground arith)
                | inr (node, e2) ↦ absurd (ground arith)
              ]
      ]

  -- What was found before a wallet is deployed: the name is free, its domain is one of the
  -- relayer's, and a supported token covers the deployment.
  pub record IsDeployable (infos : DomainsInfo) (key name : Text) (ens_args : List Text)
      (sent : List Creation) : Type 0 where
    pub node : Text
    pub named : ens.namehash name ≡ some node
    pub resolver : Text
    pub resolved : ens.resolver node ≡ ok resolver
    pub free : (resolver ≡ ether_address) ⊎ (ens.addr resolver node ≡ ok [])
    pub info : DomainInfo
    pub of_relayer : Memᴰ (printed (parse_domain name).1, info) infos
    pub served : args_for e ens chain config factory infos name sent ≡ (ok (some ens_args), sent)
    pub init_code : Text
    pub known : factory.init_code ≡ ok init_code
    pub token : SupportedToken
    pub balance : ℕ
    pub supported : Memᴰ token config.supported_tokens
    pub held :
        HasBalance
          (compute_contract_address e ens chain config factory key init_code)
          token.address
          balance
    pub enough : token.minimal_amount ≤ balance

  -- What follows once name and domain are accepted.
  funded_cases :
      (infos : DomainsInfo) (key name gas_price signature : Text) (sent : List Creation)
      (taken : Option Text) (ens_args : List Text)
      → resolve_name e ens chain config factory name sent ≡ (ok taken, sent)
      → is_truthy taken ≡ false
      → args_for e ens chain config factory infos name sent ≡ (ok (some ens_args), sent)
      → let run = deploy e ens chain config factory infos key name gas_price signature sent in
        ((x : Exception) × (run ≡ (err x, sent)))
        ⊎ (IsDeployable infos key name ens_args sent
            × (run ≡ (
              ok (creation_of e ens chain config factory key ens_args gas_price signature),
              creation_of e ens chain config factory key ens_args gas_price signature ∷ sent,
            )))
  unfolding deploy
  funded_cases infos key name gas_price signature sent taken ens_args e1 e2 e3 =
      elim (Result-cases factory.init_code) [
        | inl (x, e4) ↦ inl (x, ground arith)
        | inr (init_code, e4) ↦
            elim (Result-cases (
              find_token_with_required_balance e ens chain config factory config.supported_tokens
                (compute_contract_address e ens chain config factory key init_code))) [
                  | inl (x, e5) ↦ inl (x, ground arith)
                  | inr (none, e5) ↦ inl (not_enough_balance, ground arith)
                  | inr (some address, e5) ↦ elim (Bool-cases (is_truthy (some address))) [
                    | inr e6 ↦ inl (not_enough_balance, ground arith)
                    | inl e6 ↦
                        let (token, balance, supported, held, enough) =
                          found_token_lem config.supported_tokens
                            (compute_contract_address e ens chain config factory key init_code)
                            address e5 in
                        let (node, resolver, named, resolved, free) =
                          free_name_lem name sent taken e1 e2 in
                        elim (Result-cases (
                          factory.create_contract (
                            creation_of e ens chain config factory key ens_args gas_price
                              signature))) [
                                | inl (x, e7) ↦ inl (x, ground arith)
                                | inr (u, e7) ↦ inr (
                                  record {
                                    node = node;
                                    named = named;
                                    resolver = resolver;
                                    resolved = resolved;
                                    free = free;
                                    info = (served_lem infos name sent ens_args e3).0;
                                    of_relayer = (served_lem infos name sent ens_args e3).1;
                                    served = e3;
                                    init_code = init_code;
                                    known = e4;
                                    token = token;
                                    balance = balance;
                                    supported = supported;
                                    held = held;
                                    enough = enough;
                                  },
                                  ground arith,
                                )
                              ]
                  ]
                ]
      ]

  -- A deployment throws and sends nothing, or it sends one transaction, for a wallet that is
  -- deployable.
  pub deploy_cases :
      (infos : DomainsInfo) (key name gas_price signature : Text) (sent : List Creation)
      → let run = deploy e ens chain config factory infos key name gas_price signature sent in
        ((x : Exception) × (run ≡ (err x, sent)))
        ⊎ ((ens_args : List Text) × IsDeployable infos key name ens_args sent
            × (run ≡ (
              ok (creation_of e ens chain config factory key ens_args gas_price signature),
              creation_of e ens chain config factory key ens_args gas_price signature ∷ sent,
            )))
  unfolding deploy
  deploy_cases infos key name gas_price signature sent =
      let (r1, e1) = resolve_name-same name sent in
      let (r2, e2) = args_for-same infos name sent in
      elim (Result-cases r1) [
        | inl (x, e3) ↦ inl (x, ground arith)
        | inr (taken, e3) ↦ elim (Bool-cases (is_truthy taken)) [
          | inl e4 ↦ inl (ens_name_taken name, ground arith)
          | inr e4 ↦ elim (Result-cases r2) [
            | inl (x, e5) ↦ inl (x, ground arith)
            | inr (found, e5) ↦ elim (Option-cases found) [
              | inl e6 ↦ inl (invalid_ens_domain name, ground arith)
              | inr (ens_args, e6) ↦
                  elim (funded_cases infos key name gas_price signature sent taken ens_args
                    (ground arith) e4 (ground arith)) [
                      | inl (x, fails) ↦ inl (x, fails)
                      | inr (deployable, goes) ↦ inr (ens_args, deployable, goes)
                    ]
            ]
          ]
        ]
      ]

  -- Where the balances are known, the first supported token whose balance reaches its minimal amount
  -- is found, and none if there is no such token.
  pub find_token_with_required_balance-find :
      (balance : Text → ℕ) (ts : List SupportedToken) (address : Text)
      → ((t : Text) → get_balance e ens chain config factory address t ≡ ok (balance t))
      → find_token_with_required_balance e ens chain config factory ts address
        ≡ ok (
            address_of
              (find? (λ (t : SupportedToken). leb t.minimal_amount (balance t.address)) ts))
  unfolding find_token_with_required_balance
  find_token_with_required_balance-find balance [] address known = refl
  find_token_with_required_balance-find balance (t ∷ ts) address known =
      ground
        (arith, find_token_with_required_balance-find balance ts address known, known t.address)
