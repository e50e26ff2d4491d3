-- ===== src/Relayer/Authorisation.antt =====
-- integration/sql/services/authorisationService.ts: requests of devices to be added to a wallet.
-- Addresses and keys are ASCII, so `toLocaleLowerCase` is `toLowerCase`.
pub mod Requests
use universal_login_sdk.Prelude.{
  ℕ, suc, ◌&&◌, Bool, not, List, [], ◌∷◌, ◌++◌, Text, ◌==◌, to_lower_case, filter, gets, modify,
  pure, ◌>>=◌, ◌>>◌, Exec, Result, ok, err,
}
use universal_login_sdk.Relayer.Database.{AuthorisationRow, DeviceInfo, Database, Action}

pub record AuthorisationRequest : Type 0 where
  pub wallet_contract_address : Text
  pub key : Text
  pub device_info : DeviceInfo

unfoldable pub add_request : AuthorisationRequest → Action ℕ
add_request request = do
  id ← gets (λ db. db.next_id)
  modify (λ db. record db {
    authorisations =
        db.authorisations
        ++ record {
          id = db.next_id;
          wallet_contract_address = to_lower_case request.wallet_contract_address;
          key = to_lower_case request.key;
          device_info = request.device_info;
        }
          ∷ [];
    next_id = suc db.next_id;
  })
  pure id

abbrev pub is_for : Text → AuthorisationRow → Bool
is_for address r = r.wallet_contract_address == to_lower_case address

unfoldable pub get_pending_authorisations : Text → Action (List AuthorisationRow)
get_pending_authorisations address = gets (λ db. filter (is_for address) db.authorisations)

abbrev pub is_request_of : Text → Text → AuthorisationRow → Bool
is_request_of address key r = is_for address r && r.key == to_lower_case key

unfoldable pub remove_request : Text → Text → Action (Unit {0})
remove_request address key = modify (λ db. record db {
  authorisations = filter (λ r. not (is_request_of address key r)) db.authorisations;
})
