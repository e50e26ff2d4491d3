-- ===== src/Relayer/Http/Devices.antt =====
-- A device's way through the relayer: what the SDK posts to ask for it and to deny it, as the routes
-- of http/routes/authorisation.ts take it.
use universal_login_sdk.Prelude.{
  ℕ, ◌≡◌, refl, sym, ap, ◌∙◌, Option, List, [], ◌∷◌, ◌++◌, Text, codes, ◌==◌, ==_iff, to_lower_case,
  to_lower_case_idem, filter, filter-append, not, ok, arith, append-nil, Bool-cases, inl, inr, true,
  false,
}
use universal_login_sdk.Commons.Json.{get_field}
use universal_login_sdk.Commons.Ethers.{Ethers}
use universal_login_sdk.Relayer.Database.{Database, AuthorisationRow, DeviceInfo}
use universal_login_sdk.Relayer.Authorisation.{
  is_for, get_pending_authorisations, add_request, remove_request,
}
use universal_login_sdk.Relayer.Authorisation.Requests.{pending, remove_request-pending}
use universal_login_sdk.Relayer.Http.{Issue, Sanitizer, Schema}
use universal_login_sdk.Relayer.Http.Accepted.{AcceptsStrings, AcceptsObjects}
use universal_login_sdk.Relayer.Http.Routes.{
  Client, request, get_pending, deny_request, get_device_info, sanitize,
}
use universal_login_sdk.Relayer.Http.Schemas.{
  request_schema, denial_schema, post_request, post_denial,
}
use universal_login_sdk.Sdk.RelayerApi.{key_of_wallet}

module _ (as_string : Sanitizer Text) (as_number : Sanitizer ℕ)
    (as_optional : (A : Type 0) → Sanitizer A → Sanitizer (Option A))
    (as_object : (A : Type 0) → Schema A → Sanitizer A) (describe : List Issue → Text) (e : Ethers)
    (big_numberify_number : ℕ → Option ℕ) (strings : AcceptsStrings as_string)
    (objects : AcceptsObjects as_object) where
  post_request-key :
      (city : Text → Option Text) (time : Text) (client : Client) (address key : Text)
      → post_request as_string as_number as_optional as_object describe e big_numberify_number city
          time client
          (key_of_wallet address key)
        ≡ request address key (get_device_info city time client)
  unfolding post_request sanitize request_schema get_field ◌==◌
  post_request-key city time client address key =
      ap
        (λ parts.
          sanitize describe parts (λ (p : Text × (Text × Unit {0})).
            request p.0 p.1.0 (get_device_info city time client)))
        (objects (Text × (Text × Unit {0}))
          (request_schema as_string as_number as_optional as_object describe e big_numberify_number)
          _ (codes "body") (address, (key, tt)) (strings address, (strings key, tt)))

  post_denial-key :
      (address key : Text)
      → post_denial as_string as_number as_optional as_object describe e big_numberify_number
          address
          (key_of_wallet address key)
        ≡ deny_request address key
  unfolding post_denial sanitize denial_schema get_field ◌==◌
  post_denial-key address key =
      ap (λ parts. sanitize describe parts (λ (p : Text × Unit {0}). deny_request address p.0))
        (objects (Text × Unit {0})
          (denial_schema as_string as_number as_optional as_object describe e big_numberify_number)
          _ (codes "body") (key, tt) (strings key, tt))

-- The row of a request.
abbrev pub row_of : Text → Text → DeviceInfo → Database → AuthorisationRow
row_of address key info db = record {
  id = db.next_id;
  wallet_contract_address = to_lower_case address;
  key = to_lower_case key;
  device_info = info;
}

pending-request :
    (address key other : Text) (info : DeviceInfo) (db : Database)
    → pending other (request address key info db).1
      ≡ pending other db ++ filter (is_for other) (row_of address key info db ∷ [])
unfolding request add_request
pending-request address key other info db =
    filter-append (is_for other) db.authorisations (row_of address key info db ∷ [])

-- Of the rows of other keys, those of a list and a row of the key are those of the list.
filter-row :
    (key : Text) (row : AuthorisationRow) (rows : List AuthorisationRow)
    → row.key ≡ to_lower_case key
    → filter (λ r. not (r.key == to_lower_case key)) (rows ++ row ∷ [])
      ≡ filter (λ r. not (r.key == to_lower_case key)) rows
filter-row key row rows same =
    let split = filter-append (λ r. not (r.key == to_lower_case key)) rows (row ∷ []) in
    let equal = ==_iff row.key (to_lower_case key) in
    let last = append-nil (filter (λ r. not (r.key == to_lower_case key)) rows) in
    ground (arith, split, equal, last)

pending-deny :
    (address key other : Text) (db : Database)
    → pending other (deny_request address key db).1
      ≡ pending other (remove_request address key db).1
unfolding deny_request remove_request
pending-deny address key other db = refl

-- A request of another wallet is not listed.
pending-request_other :
    (address key other : Text) (info : DeviceInfo) (db : Database)
    → (to_lower_case other == to_lower_case address) ≡ false
    → pending other (request address key info db).1 ≡ pending other db
pending-request_other address key other info db differs =
    let made = pending-request address key other info db in
    let left = ==_iff (to_lower_case other) (to_lower_case address) in
    let right = ==_iff (to_lower_case address) (to_lower_case other) in
    let last = append-nil (pending other db) in ground (arith, made, left, right, last)

-- A request of the wallet is listed last.
pending-request_same :
    (address key other : Text) (info : DeviceInfo) (db : Database)
    → (to_lower_case other == to_lower_case address) ≡ true
    → pending other (request address key info db).1
      ≡ pending other db ++ row_of address key info db ∷ []
pending-request_same address key other info db same =
    let made = pending-request address key other info db in
    let left = ==_iff (to_lower_case other) (to_lower_case address) in
    let right = ==_iff (to_lower_case address) (to_lower_case other) in
    ground (arith, made, left, right)

-- Where no request of the key was pending, a request and its denial leave every list as it was.
pending-deny_request :
    (address key other : Text) (info : DeviceInfo) (db : Database)
    → filter (λ r. not (r.key == to_lower_case key)) (pending address db) ≡ pending address db
    → pending other (deny_request address key (request address (to_lower_case key) info db).1).1
      ≡ pending other db
pending-deny_request address key other info db fresh =
    let after = (request address (to_lower_case key) info db).1 in
    let removed =
      pending-deny address key other after ∙ remove_request-pending address key other after in
    elim (Bool-cases (to_lower_case other == to_lower_case address)) [
      | inr e ↦
          let listed = pending-request_other address (to_lower_case key) other info db e in
          removed ∙ rw e listed
      | inl e ↦
          let listed = pending-request_same address (to_lower_case key) other info db e in
          let alike : pending other db ≡ pending address db =
            ap (λ t. filter (λ r. r.wallet_contract_address == t) db.authorisations)
              ((==_iff (to_lower_case other) (to_lower_case address)).0 e) in
          let row = row_of address (to_lower_case key) info db in
          removed
          ∙ rw e (
              ap (filter (λ r. not (r.key == to_lower_case key))) listed
              ∙ filter-row key row (pending other db) (to_lower_case_idem key)
              ∙ ap (filter (λ r. not (r.key == to_lower_case key))) alike
              ∙ fresh
              ∙ sym alike)
    ]

module _ (as_string : Sanitizer Text) (as_number : Sanitizer ℕ)
    (as_optional : (A : Type 0) → Sanitizer A → Sanitizer (Option A))
    (as_object : (A : Type 0) → Schema A → Sanitizer A) (describe : List Issue → Text) (e : Ethers)
    (big_numberify_number : ℕ → Option ℕ) (strings : AcceptsStrings as_string)
    (objects : AcceptsObjects as_object) (city : Text → Option Text) (time : Text)
    (client : Client) where
  -- The database after the body of the SDK's connect was posted, whose key is in lower case, and after
  -- that of its denyRequest was.
  abbrev pub after_connect : Text → Text → Database → Database
  after_connect address key db =
      (post_request as_string as_number as_optional as_object describe e big_numberify_number city
        time client (key_of_wallet address (to_lower_case key)) db).1

  abbrev pub after_deny : Text → Text → Database → Database
  after_deny address key db =
      (post_denial as_string as_number as_optional as_object describe e big_numberify_number address
        (key_of_wallet address key) db).1

  after_connect_lem :
      (address key : Text) (db : Database)
      → after_connect address key db
        ≡ (request address (to_lower_case key) (get_device_info city time client) db).1
  after_connect_lem address key db =
      ap (λ f. (f db).1)
        (post_request-key as_string as_number as_optional as_object describe e big_numberify_number
          strings objects city time client address (to_lower_case key))

  after_deny_lem :
      (address key : Text) (db : Database)
      → after_deny address key db ≡ (deny_request address key db).1
  after_deny_lem address key db =
      ap (λ f. (f db).1)
        (post_denial-key as_string as_number as_optional as_object describe e big_numberify_number
          strings objects address key)

  -- What connect of the SDK posts has the relayer answer with the device's key, in lower case and after
  -- the wallet's earlier requests, when the wallet's requests are asked for, whatever the case of its
  -- address; and where that key was not asked for before, what denyRequest posts after it leaves the
  -- requests of every wallet as they were at first.
  pub after_deny-after_connect :
      (address key asked other : Text) (db : Database)
      → to_lower_case asked ≡ to_lower_case address
      → filter (λ r. not (r.key == to_lower_case key)) (pending address db) ≡ pending address db
      → ((get_pending asked (after_connect address key db)).0
          ≡ ok (record {
            status = 200;
            body =
                pending asked db
                ++ row_of address (to_lower_case key) (get_device_info city time client) db ∷ [];
          }))
        × (pending other (after_deny address key (after_connect address key db)) ≡ pending other db)
  unfolding get_pending get_pending_authorisations
  after_deny-after_connect address key asked other db same fresh =
      let listed =
        pending-request_same address (to_lower_case key) asked (get_device_info city time client) db
          ((==_iff (to_lower_case asked) (to_lower_case address)).1 same) in
      let undone =
        pending-deny_request address key other (get_device_info city time client) db fresh in
      (
        ap (λ rows. ok (record { status = 200; body = rows }))
            (ap (pending asked) (after_connect_lem address key db) ∙ listed),
        ap (pending other) (after_deny_lem address key (after_connect address key db))
            ∙ ap (λ d. pending other (deny_request address key d).1)
                (after_connect_lem address key db)
            ∙ undone,
      )
