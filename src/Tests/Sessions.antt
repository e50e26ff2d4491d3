-- ===== src/Tests/Sessions.antt =====
-- A session with the wallet, and the names that are offered to a user.
use universal_login_sdk.Prelude.{
  ◌≡◌, ◌<◌, refl, Bool, some, List, [], ◌∷◌, Text, codes, Result, ok, starts_with, ◌==◌, split,
  length, arith,
}
use universal_login_sdk.Commons.Selection.{
  Suggestions, split_by_existence, get_suggestions, is_correct_prefix, is_node_prefix,
  get_suggestions_for_node_and_sld_prefix,
}
use universal_login_sdk.Commons.Selection.Suggested.{Extend, get_suggestions-Extend}
use universal_login_sdk.Wallet.{FutureWallet, AnyWallet, WalletState, WalletService, new_service}
use universal_login_sdk.Wallet.Sessions.{
  Call, create, deployed_as, leave, after_all, IsConsistent, after_all-IsConsistent,
}

abbrev future_wallet : FutureWallet
future_wallet = record { contract_address = codes "0x1"; private_key = codes "0x2" }

abbrev calls : List Call
calls = create (ok future_wallet) ∷ deployed_as (codes "alice.mylogin.eth") ∷ leave ∷ []

after_all-IsConsistent_example : IsConsistent (after_all calls new_service)
after_all-IsConsistent_example = after_all-IsConsistent calls

abbrev waiting_service : WalletService
waiting_service = record {
  user_wallet = some (AnyWallet.future future_wallet);
  state = WalletState.state_future;
}

-- One name exists.
abbrev known : Text → Bool
known d = d == codes "alice.mylogin.eth"

abbrev exists : Text → Result Text Bool
exists d = ok (known d)

abbrev names : List Text
names = codes "alice.mylogin.eth" ∷ codes "alice.example.eth" ∷ []

abbrev domains : List Text
domains = codes "mylogin.eth" ∷ codes "example.eth" ∷ []

abbrev offered : Suggestions
offered = record { connections = codes "alice.mylogin.eth" ∷ []; creations = [] }

offers : get_suggestions exists domains (codes "alice.my") ≡ ok (some offered)
unfolding get_suggestions is_correct_prefix split is_node_prefix starts_with
    get_suggestions_for_node_and_sld_prefix split_by_existence ◌==◌
offers = refl

two_parts : length (split b'.' (codes "alice.my")) < 3
unfolding split
two_parts = omega arith

get_suggestions-Extend_example : Extend (codes "alice.my") offered
get_suggestions-Extend_example =
    get_suggestions-Extend exists known (λ d. refl) domains (codes "alice.my") offered two_parts
      offers
