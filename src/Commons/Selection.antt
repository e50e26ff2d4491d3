-- ===== src/Commons/Selection.antt =====
-- core/services/WalletSelectionService.ts and SuggestionsService.ts: the names that are offered
-- while a user types one.
pub mod Suggested
use universal_login_sdk.Prelude.{
  ℕ, Bool, true, false, not, ◌&&◌, ◌||◌, Option, none, some, List, [], ◌∷◌, ◌++◌, map, Text, codes,
  starts_with, split, filter, all, length, ltb, leb, eqb, Result, ok, err, if◌then◌else◌,
}
use universal_login_sdk.Commons.Signatures.{◌>>=◌}

pub record Suggestions : Type 0 where
  pub connections : List Text
  pub creations : List Text

abbrev pub no_suggestions : Suggestions
no_suggestions = record { connections = []; creations = [] }

-- `\w`
pub is_word : ℕ → Bool
is_word c =
    (leb b'a' c && leb c b'z')
    || ((leb b'A' c && leb c b'Z') || ((leb b'0' c && leb c b'9') || eqb c b'_'))

-- `/^[\w-]*$/`
pub is_label_part : Text → Bool
unfolding is_word
is_label_part = all (λ c. is_word c || eqb c b'-')

-- `/^\w[\w-]*$/`
unfoldable pub is_node_prefix : Text → Bool
unfolding is_word is_label_part
is_node_prefix [] = false
is_node_prefix (c ∷ t) = is_word c && is_label_part t

pub is_correct_tld : Text → Bool
is_correct_tld tld =
    starts_with (codes "test") tld
    || (starts_with (codes "eth") tld || starts_with (codes "xyz") tld)

-- `${node}.${domain}`
abbrev pub named : Text → Text → Text
named node domain = node ++ b'.' ∷ domain

-- The loop of `splitByExistence`, with what was pushed so far.
module _ {E : Type 0} (wallet_contract_exist : Text → Result E Bool) where
  pub push_by_existence : Suggestions → List Text → Result E Suggestions
  push_by_existence s [] = ok s
  push_by_existence s (domain ∷ domains) = do
    exists ← wallet_contract_exist domain
    push_by_existence
        (if exists
          then record s { connections = s.connections ++ domain ∷ [] }
          else record s { creations = s.creations ++ domain ∷ [] })
        domains

  unfoldable pub split_by_existence : List Text → Result E Suggestions
  unfolding push_by_existence
  split_by_existence domains = push_by_existence no_suggestions domains

  module _ (domains : List Text) where
    pub is_correct_domain_prefix : Text → Bool
    is_correct_domain_prefix domain =
        ltb 0 (length (filter (λ element. starts_with element domain) domains))

    -- `isCorrectPrefix`, on the parts of the prefix
    pub are_correct_parts : List Text → Bool
    unfolding is_correct_domain_prefix
    are_correct_parts [] = false
    are_correct_parts (node ∷ []) = is_node_prefix node
    are_correct_parts (node ∷ domain ∷ []) =
        is_node_prefix node && (is_label_part domain || is_correct_domain_prefix domain)
    are_correct_parts (node ∷ domain ∷ tld ∷ []) =
        is_node_prefix node
        && (if is_label_part domain
            then not (eqb (length domain) 0) && is_correct_tld tld
            else is_correct_domain_prefix domain)
    are_correct_parts _ = false

    unfoldable pub is_correct_prefix : Text → Bool
    unfolding are_correct_parts
    is_correct_prefix prefix = are_correct_parts (split b'.' prefix)

    pub get_suggestions_for_node_prefix : Text → Result E Suggestions
    get_suggestions_for_node_prefix node_prefix =
        split_by_existence (map (named node_prefix) domains)

    unfoldable pub get_suggestions_for_node_and_sld_prefix : Text → Text → Result E Suggestions
    get_suggestions_for_node_and_sld_prefix node sld_prefix =
        split_by_existence
          (map (named node) (filter (λ domain. starts_with domain sld_prefix) domains))

    -- The last two branches of `getSuggestions` for three parts; `none` is `undefined`.
    pub get_suggestions_for_name : Text → Text → Text → Text → Result E (Option Suggestions)
    get_suggestions_for_name name_prefix name domain tld =
        if is_correct_tld tld
        then (if ltb (length tld) 3
            then (get_suggestions_for_node_and_sld_prefix name domain >>= λ s. ok (some s))
            else (wallet_contract_exist name_prefix >>= λ exists. ok (
                some (
                  if exists
                  then record { connections = name_prefix ∷ []; creations = [] }
                  else record { connections = []; creations = name_prefix ∷ [] }))))
        else ok none

    -- The branches of `getSuggestions` on a correct prefix.
    unfoldable pub get_suggestions_for_parts : Text → List Text → Result E (Option Suggestions)
    unfolding get_suggestions_for_name
    get_suggestions_for_parts name_prefix (node ∷ []) =
        get_suggestions_for_node_prefix name_prefix >>= λ s. ok (some s)
    get_suggestions_for_parts name_prefix (node ∷ domain ∷ []) =
        if is_correct_domain_prefix domain
        then (get_suggestions_for_node_and_sld_prefix node domain >>= λ s. ok (some s))
        else ok (some no_suggestions)
    get_suggestions_for_parts name_prefix (node ∷ domain ∷ tld ∷ []) =
        if is_correct_domain_prefix (domain ++ b'.' ∷ [])
        then get_suggestions_for_name name_prefix node domain tld
        else ok (some no_suggestions)
    get_suggestions_for_parts name_prefix _ = ok none

    unfoldable pub get_suggestions : Text → Result E (Option Suggestions)
    unfolding get_suggestions_for_parts
    get_suggestions name_prefix =
        if is_correct_prefix name_prefix
        then get_suggestions_for_parts name_prefix (split b'.' name_prefix)
        else ok (some no_suggestions)

    -- `doGetSuggestions`: what the callback is called with
    pub do_get_suggestions : Text → Result E Suggestions
    do_get_suggestions name =
        get_suggestions name >>= λ s. ok (elim s [ none ↦ no_suggestions | some found ↦ found ])
