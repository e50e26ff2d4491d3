-- ===== src/Commons/Selection/Suggested.antt =====
-- What is offered, where the SDK knows which names exist.
use universal_login_sdk.Prelude.{
  ◌<◌, ◌≡◌, subst, inl, inr, Bool, true, not, some, List, [], ◌∷◌, ◌++◌, map, Text, starts_with,
  starts_with-append, starts_with-eq-append, split, join, join-split, filter, All, All-filter,
  length, Result, ok, if◌then◌else◌, arith, Bool-cases, append-nil, append_assoc,
}
use universal_login_sdk.Commons.Signatures.{◌>>=◌}
use universal_login_sdk.Commons.Selection.{
  Suggestions, no_suggestions, named, push_by_existence, split_by_existence,
  get_suggestions_for_node_prefix, get_suggestions_for_node_and_sld_prefix,
  get_suggestions_for_parts, get_suggestions, is_correct_prefix, is_correct_domain_prefix,
}

-- Every offered name begins with what was typed.
abbrev pub Extend : Text → Suggestions → Type 0
Extend typed s =
    All (λ d. starts_with d typed ≡ true) s.connections
    × All (λ d. starts_with d typed ≡ true) s.creations

module _ {E : Type 0} (wallet_contract_exist : Text → Result E Bool) (known : Text → Bool)
    (answers : (d : Text) → wallet_contract_exist d ≡ ok (known d)) where
  push_lem :
      (s : Suggestions) (ds : List Text)
      → push_by_existence wallet_contract_exist s ds
        ≡ ok (record {
          connections = s.connections ++ filter known ds;
          creations = s.creations ++ filter (λ d. not (known d)) ds;
        })
  unfolding push_by_existence
  push_lem s [] = cc (append-nil s.connections, append-nil s.creations)
  push_lem s (d ∷ ds) = elim (Bool-cases (known d)) [
    | inl e1 ↦ rw (
      answers d,
      e1,
      push_lem (record s { connections = s.connections ++ d ∷ [] }) ds,
      append_assoc s.connections (d ∷ []) (filter known ds),
    )
    | inr e1 ↦ rw (
      answers d,
      e1,
      push_lem (record s { creations = s.creations ++ d ∷ [] }) ds,
      append_assoc s.creations (d ∷ []) (filter (λ x. not (known x)) ds),
    )
  ]

  -- The names that exist are offered for connection, and all others for creation, in their order.
  pub split_by_existence-filter :
      (ds : List Text)
      → split_by_existence wallet_contract_exist ds
        ≡ ok (record { connections = filter known ds; creations = filter (λ d. not (known d)) ds })
  unfolding split_by_existence
  split_by_existence-filter ds = push_lem no_suggestions ds

  -- The names that a list of domains gives, where each extends what was typed.
  split-Extend :
      (typed : Text) (ds : List Text) (s : Suggestions)
      → All (λ d. starts_with d typed ≡ true) ds
      → split_by_existence wallet_contract_exist ds ≡ ok s
      → Extend typed s
  split-Extend typed ds s all_extend h =
      subst (Extend typed) (ground (arith, split_by_existence-filter ds)) (
        All-filter (λ d. starts_with d typed ≡ true) known ds all_extend,
        All-filter (λ d. starts_with d typed ≡ true) (λ d. not (known d)) ds all_extend,
      )

module _ (node : Text) where
  named-All : (ds : List Text) → All (λ d. starts_with d node ≡ true) (map (named node) ds)
  named-All [] = tt
  named-All (d ∷ ds) = (starts_with-append node (b'.' ∷ d), named-All ds)

  named-filter :
      (sld : Text) (ds : List Text)
      → All
          (λ d. starts_with d (named node sld) ≡ true)
          (map (named node) (filter (λ d. starts_with d sld) ds))
  named-filter sld [] = tt
  named-filter sld (d ∷ ds) = elim (Bool-cases (starts_with d sld)) [
    | inl e1 ↦
        let (rest, e2) = starts_with-eq-append d sld e1 in
        rw e1 (
          rw (e2, ← append_assoc node (b'.' ∷ sld) rest) (starts_with-append (named node sld) rest),
          named-filter sld ds,
        )
    | inr e1 ↦ rw e1 (named-filter sld ds)
  ]

module _ {E : Type 0} (wallet_contract_exist : Text → Result E Bool) (known : Text → Bool)
    (answers : (d : Text) → wallet_contract_exist d ≡ ok (known d)) (domains : List Text) where
  unwrapped :
      (ds : List Text) (s : Suggestions)
      → (split_by_existence wallet_contract_exist ds >>= λ found. ok (some found)) ≡ ok (some s)
      → split_by_existence wallet_contract_exist ds ≡ ok s
  unwrapped ds s h =
      ground (arith, split_by_existence-filter wallet_contract_exist known answers ds)

  parts-Extend :
      (typed : Text) (parts : List Text) (s : Suggestions)
      → join (b'.' ∷ []) parts ≡ typed
      → length parts < 3
      → get_suggestions_for_parts wallet_contract_exist domains typed parts ≡ ok (some s)
      → Extend typed s
  unfolding join get_suggestions_for_parts get_suggestions_for_node_prefix
      get_suggestions_for_node_and_sld_prefix
  parts-Extend typed [] s same short h = absurd (ground arith)
  parts-Extend typed (node ∷ []) s same short h =
      split-Extend wallet_contract_exist known answers typed (map (named typed) domains) s
        (named-All typed domains) (unwrapped (map (named typed) domains) s h)
  parts-Extend typed (node ∷ domain ∷ []) s same short h =
      elim (Bool-cases (is_correct_domain_prefix wallet_contract_exist domains domain)) [
        | inl e1 ↦
            let ds = map (named node) (filter (λ d. starts_with d domain) domains) in
            subst (λ t. Extend t s) same
              (split-Extend wallet_contract_exist known answers (named node domain) ds s
                (named-filter node domain domains)
                (unwrapped ds s (
                  subst
                    (λ b.
                      (if b
                        then (split_by_existence wallet_contract_exist ds >>= λ found.
                            ok (some found))
                        else ok (some no_suggestions))
                      ≡ ok (some s))
                    e1 h)))
        | inr e1 ↦
            let is_empty : no_suggestions ≡ s = ground arith in
            subst (Extend typed) is_empty (tt, tt)
      ]
  parts-Extend typed (node ∷ domain ∷ tld ∷ rest) s same short h = absurd (omega arith)

  -- As long as fewer than two dots are typed, every offered name begins with what was typed.
  pub get_suggestions-Extend :
      (typed : Text) (s : Suggestions)
      → length (split b'.' typed) < 3
      → get_suggestions wallet_contract_exist domains typed ≡ ok (some s)
      → Extend typed s
  unfolding get_suggestions
  get_suggestions-Extend typed s short h =
      elim (Bool-cases (is_correct_prefix wallet_contract_exist domains typed)) [
        | inl e1 ↦
            parts-Extend typed (split b'.' typed) s (join-split b'.' typed) short (ground arith)
        | inr e1 ↦
            let is_empty : no_suggestions ≡ s = ground arith in
            subst (Extend typed) is_empty (tt, tt)
      ]
