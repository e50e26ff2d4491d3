-- ===== src/Commons/Cosigning.antt =====
-- core/utils/messages/calculateMessageSignature.ts: the signatures of a message by many keys, which
-- are to be sorted by address and joined. A thrown error is kept as its text.
use universal_login_sdk.Prelude.{
  Result-cases, ◌≡◌, refl, inl, inr, Bool, true, false, List, [], ◌∷◌, Text, codes, ltb, Option,
  none, some, ap, ◌∙◌, Bool-cases, Option-cases, Result, ok, err, arith, ◌⊎◌,
}
use universal_login_sdk.Commons.Ethers.{Ethers}
use universal_login_sdk.Commons.Message.{SignedMessage, message_hash_of}
use universal_login_sdk.Commons.Signatures.{◌>>=◌, concatenate_signatures}
use universal_login_sdk.Commons.Signing.{calculate_message_signature, signature_of, is_signable}

-- `new Wallet(privateKey)`: the address, or what is thrown for a text that is no private key.
abbrev pub Wallets : Type 0
Wallets = Text → Result Text Text

-- what ethers throws on a malformed key or message
unfoldable pub malformed : Text
malformed = codes "invalid argument"

abbrev or_malformed : Option (List Text) → Result Text (List Text)
or_malformed none = err malformed
or_malformed (some signatures) = ok signatures

module _ (e : Ethers) (wallet : Wallets) where
  -- `addressComparator`, as whether the second is to come first
  unfoldable pub comes_after : Text → Text → Result Text Bool
  comes_after private_key_1 private_key_2 = do
    address_1 ← wallet private_key_1
    address_2 ← wallet private_key_2
    ok (ltb (e.address_number address_2) (e.address_number address_1))

  unfoldable pub insert_key : Text → List Text → Result Text (List Text)
  unfolding comes_after
  insert_key key [] = ok (key ∷ [])
  insert_key key (k ∷ ks) = do
    after ← comes_after key k
    elim after [ false ↦ ok (key ∷ (k ∷ ks)) | true ↦ do rest ← insert_key key ks; ok (k ∷ rest) ]

  -- `sortPrivateKeysByAddress`: JavaScript's `sort`, as an insertion sort; the comparator is not
  -- called where there is one key at most.
  unfoldable pub sort_private_keys_by_address : List Text → Result Text (List Text)
  unfolding insert_key
  sort_private_keys_by_address [] = ok []
  sort_private_keys_by_address (key ∷ keys) = do
    sorted ← sort_private_keys_by_address keys
    insert_key key sorted

  -- the signature of each key, if all are made
  unfoldable pub sign_each : List Text → SignedMessage → Option (List Text)
  sign_each [] msg = some []
  sign_each (key ∷ keys) msg = elim (calculate_message_signature e key msg) [
    | none ↦ none
    | some signature ↦ elim (sign_each keys msg) [
      | none ↦ none
      | some signatures ↦ some (signature ∷ signatures)
    ]
  ]

  -- `calculateMessageSignatures`
  unfoldable pub calculate_message_signatures : List Text → SignedMessage → Result Text Text
  unfolding sort_private_keys_by_address sign_each
  calculate_message_signatures private_keys msg = do
    signatures ← or_malformed (sign_each private_keys msg)
    sorted ← sort_private_keys_by_address signatures
    concatenate_signatures sorted

  insert_key-nonempty :
      (key k : Text) (ks : List Text) (thrown : Text)
      → wallet key ≡ err thrown
      → insert_key key (k ∷ ks) ≡ err thrown
  unfolding insert_key comes_after
  insert_key-nonempty key k ks thrown refused = ground arith

  sort_nonempty :
      (k : Text) (ks : List Text) (thrown : Text)
      → wallet k ≡ err thrown
      → ((x : Text) × (sort_private_keys_by_address (k ∷ ks) ≡ err x))
        ⊎ ((x : Text) × (xs : List Text) × (sort_private_keys_by_address (k ∷ ks) ≡ ok (x ∷ xs)))
  unfolding sort_private_keys_by_address insert_key
  sort_nonempty k ks thrown refused = elim (Result-cases (sort_private_keys_by_address ks)) [
    | inl (x, e1) ↦ inl (x, rw e1 refl)
    | inr ([], e1) ↦ inr (k, [], rw e1 refl)
    | inr (y ∷ ys, e1) ↦ inl (thrown, rw e1 (insert_key-nonempty k y ys thrown refused))
  ]

  sort_throws :
      (a b : Text) (keys : List Text) (thrown_a thrown_b : Text)
      → wallet a ≡ err thrown_a
      → wallet b ≡ err thrown_b
      → (thrown : Text) × (sort_private_keys_by_address (a ∷ b ∷ keys) ≡ err thrown)
  unfolding sort_private_keys_by_address
  sort_throws a b keys thrown_a thrown_b refused_a refused_b =
      elim (sort_nonempty b keys thrown_b refused_b) [
        | inl (x, e1) ↦ (x, rw e1 refl)
        | inr (x, xs, e1) ↦ (thrown_a, rw e1 (insert_key-nonempty a x xs thrown_a refused_a))
      ]

  -- What two keys or more have signed begins with the signatures of the first two.
  sign_each_two :
      (a b : Text) (keys signatures : List Text) (msg : SignedMessage)
      → sign_each (a ∷ b ∷ keys) msg ≡ some signatures
      → (rest : List Text) × (signatures ≡ signature_of e a msg ∷ signature_of e b msg ∷ rest)
  unfolding sign_each
  sign_each_two a b keys signatures msg made = elim (Bool-cases (is_signable e a msg)) [
    | inr e1 ↦ absurd (ground arith)
    | inl e1 ↦ elim (Bool-cases (is_signable e b msg)) [
      | inr e2 ↦ absurd (ground arith)
      | inl e2 ↦ elim (Option-cases (sign_each keys msg)) [
        | inl e3 ↦ absurd (ground arith)
        | inr (rest, e3) ↦ (rest, ground arith)
      ]
    ]
  ]

  sorting_throws :
      (private_keys signatures : List Text) (msg : SignedMessage) (thrown : Text)
      → sign_each private_keys msg ≡ some signatures
      → sort_private_keys_by_address signatures ≡ err thrown
      → calculate_message_signatures private_keys msg ≡ err thrown
  unfolding calculate_message_signatures
  sorting_throws private_keys signatures msg thrown e1 e2 = rw (e1, e2)

  signing_throws :
      (private_keys : List Text) (msg : SignedMessage)
      → sign_each private_keys msg ≡ none
      → calculate_message_signatures private_keys msg ≡ err malformed
  unfolding calculate_message_signatures
  signing_throws private_keys msg e1 = rw e1

  -- Signatures are sorted as if they were private keys: where ethers makes no wallet of a signature,
  -- the signatures of two keys or more cannot be calculated, whatever the message is.
  pub calculate_message_signatures_throws :
      ((private_key bytes : Text)
        → (thrown : Text) × (wallet (e.sign_message private_key bytes) ≡ err thrown))
      → (a b : Text) (keys : List Text) (msg : SignedMessage)
      → (thrown : Text) × (calculate_message_signatures (a ∷ b ∷ keys) msg ≡ err thrown)
  unfolding signature_of sign_each
  calculate_message_signatures_throws refuses a b keys msg =
      elim (Option-cases (sign_each (a ∷ b ∷ keys) msg)) [
        | inl none_made ↦ (malformed, signing_throws (a ∷ b ∷ keys) msg none_made)
        | inr (signatures, made) ↦
            let (rest, same) = sign_each_two a b keys signatures msg made in
            let (thrown_a, refused_a) = refuses a (e.arrayify (message_hash_of e msg)) in
            let (thrown_b, refused_b) = refuses b (e.arrayify (message_hash_of e msg)) in
            let (thrown, e1) =
              sort_throws (signature_of e a msg) (signature_of e b msg) rest thrown_a thrown_b
                refused_a refused_b in
            (
              thrown,
              sorting_throws (a ∷ b ∷ keys) signatures msg thrown made
                  (ap sort_private_keys_by_address same ∙ e1),
            )
      ]
