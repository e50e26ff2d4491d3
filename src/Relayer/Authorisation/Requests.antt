-- ===== src/Relayer/Authorisation/Requests.antt =====
-- What stays listed for a wallet after requests are made and withdrawn.
use universal_login_sdk.Prelude.{
  ◌≡◌, not, List, [], ◌∷◌, ◌++◌, Text, arith, ◌==◌, ==_iff, to_lower_case, filter, filter-append,
  ok, if◌then◌else◌,
}
use universal_login_sdk.Relayer.Database.{AuthorisationRow, Database}
use universal_login_sdk.Relayer.Authorisation.{
  AuthorisationRequest, add_request, is_for, is_request_of, get_pending_authorisations,
  remove_request,
}

abbrev pub pending : Text → Database → List AuthorisationRow
pending address db = filter (is_for address) db.authorisations

filter-removed :
    (address other key : Text) (rows : List AuthorisationRow)
    → filter (is_for other) (filter (λ r. not (is_request_of address key r)) rows) ≡ (
        if to_lower_case other == to_lower_case address
        then filter (λ r. not (r.key == to_lower_case key)) (filter (is_for other) rows)
        else filter (is_for other) rows)
filter-removed address other key [] = ground arith
filter-removed address other key (r ∷ rows) = ground (
  arith,
  filter-removed address other key rows,
  ==_iff r.wallet_contract_address (to_lower_case address),
  ==_iff r.wallet_contract_address (to_lower_case other),
  ==_iff (to_lower_case other) (to_lower_case address),
)

-- Withdrawing a request takes exactly the wallet's requests of that key off its list, whatever the
-- case of the letters, and leaves the list of every other wallet as it was.
pub remove_request-pending :
    (address key other : Text) (db : Database)
    → pending other (remove_request address key db).1 ≡ (
        if to_lower_case other == to_lower_case address
        then filter (λ r. not (r.key == to_lower_case key)) (pending other db)
        else pending other db)
unfolding remove_request
remove_request-pending address key other db = filter-removed address other key db.authorisations

-- A request is listed for its wallet, last and in lower case, however the address is spelled.
pub add_request-pending :
    (request : AuthorisationRequest) (address : Text) (db : Database)
    → to_lower_case address ≡ to_lower_case request.wallet_contract_address
    → (get_pending_authorisations address (add_request request db).1).0
      ≡ ok (
          pending address db
          ++ record {
            id = db.next_id;
            wallet_contract_address = to_lower_case request.wallet_contract_address;
            key = to_lower_case request.key;
            device_info = request.device_info;
          }
            ∷ [])
unfolding add_request get_pending_authorisations
add_request-pending request address db same = ground (
  arith,
  filter-append (is_for address) db.authorisations (
      record {
        id = db.next_id;
        wallet_contract_address = to_lower_case request.wallet_contract_address;
        key = to_lower_case request.key;
        device_info = request.device_info;
      }
      ∷ []),
  ==_iff (to_lower_case request.wallet_contract_address) (to_lower_case address),
)
