-- ===== src/Tests/Example.antt =====
-- The example application's services, at a chain with two presses, an address without a name, and
-- two calls of connect.
use universal_login_sdk.Prelude.{
  ℕ, zero, suc, ◌≡◌, refl, false, true, Option, none, some, List, [], ◌∷◌, ◌++◌, Text, codes,
  Result, ok, err, length, All, arith, Bool, ◌*◌, starts_with,
}
use universal_login_sdk.Example.History.{Log, Chain, new_service, subscribe}
use universal_login_sdk.Example.History.Rounds.{IsGrowing, IsOf, rounds_of, subscribe-shown}
use universal_login_sdk.Example.EnsNames.{EnsNameService, no_slice, round}
use universal_login_sdk.Example.EnsNames
use universal_login_sdk.Example.EnsNames.Named.{round-ends}
use universal_login_sdk.Example.Wallets.{WalletService, connect, key_added}
use universal_login_sdk.Example.Wallets
use universal_login_sdk.Example.Wallets.Connecting.{made_by_connect, with_key, connect-connect}

abbrev press : ℕ → Log
press n = record { data_field = n ∷ []; presser = codes "0xa"; press_time = 60 * n; score = n }

-- One press when the node is first asked for a block, and two from the next question on.
abbrev logs : ℕ → List Log
logs zero = press 1 ∷ []
logs (suc n) = press 1 ∷ press 2 ∷ []

abbrev chain : Chain
chain = record {
  get_block_number = λ asked. ok 12;
  get_logs = λ asked from. ok (logs asked);
  words = λ asked time. codes "now";
}

grows : (n : ℕ) → (new : List Log) × (logs (suc n) ≡ logs n ++ new)
grows zero = (press 2 ∷ [], refl)
grows (suc n) = ([], refl)

growing : IsGrowing chain logs
growing = record { short = λ n. (12, refl, omega arith); answers = λ n. refl; grows = grows }

subscribe-shown_example :
    All (IsOf chain logs) (subscribe chain (false ∷ true ∷ []) new_service).shown
    × (length (subscribe chain (false ∷ true ∷ []) new_service).shown
        ≡ rounds_of chain logs (false ∷ true ∷ []))
subscribe-shown_example = subscribe-shown chain logs growing (false ∷ true ∷ [])

-- No address has a name.
abbrev names : Text → Option Text
names address = none

abbrev lookup_address : ℕ → Text → Result Text (Option Text)
lookup_address asked address = ok none

abbrev ens_names : EnsNameService
ens_names = record {
  running = true;
  is_working = false;
  pressers =
      record {
        address = codes "0xa";
        name = some (codes "0xa");
        press_time = codes "now";
        score = 1;
        key = [];
      }
      ∷ [];
  asked = 0;
}

round-ends_example :
    let first = (round lookup_address ens_names).1 in
    let second = round lookup_address first in
    (second.0 ≡ err no_slice)
    × ((rounds : List Bool)
        → (EnsNames.subscribe lookup_address rounds second.1).pressers ≡ second.1.pressers)
unfolding starts_with
round-ends_example = round-ends names lookup_address (λ n address. refl) ens_names refl refl refl

abbrev address_of : Text → Text
address_of key = codes "0x" ++ key

abbrev wallets : WalletService
wallets = record Wallets.new_service {
  wallet_contract = record {
    name = some (codes "alice");
    private_key = none;
    address = some (codes "0x1");
  };
}

connect-connect_example :
    let s1 = (connect address_of (ok (codes "k1")) wallets).1 in
    let t =
      key_added
        (made_by_connect address_of (codes "k1") wallets)
        (connect address_of (ok (codes "k2")) s1).1 in
    (t.stored ≡ some (with_key address_of (codes "k2") wallets))
    × (t.subscriptions ≡ [] ++ made_by_connect address_of (codes "k1") wallets ∷ [])
connect-connect_example = connect-connect address_of (codes "k1") (codes "k2") wallets tt
