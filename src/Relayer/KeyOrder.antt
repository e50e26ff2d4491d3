-- ===== src/Relayer/KeyOrder.antt =====
-- `executionComparator` and `sortSignatureKeyPairsByKey` of core/utils/utils.ts: signatures in the
-- order of their signers' addresses. `Array.sort` is taken as a stable sort by the comparator.
use mathlib.Core.List.{Perm}
use mathlib.Core.List.Perm
use universal_login_sdk.Prelude.{
  ℕ, ◌≤◌, inl, inr, Bool, true, false, List, [], ◌∷◌, arith, ltb, All, if◌then◌else◌, Bool-cases,
}
use universal_login_sdk.Commons.Ethers.{Ethers}
use universal_login_sdk.Relayer.PendingStore.{CollectedSignatureKeyPair}

-- The comparator's -1, 0 and 1.
pub data Sign : Type 0 where
  minus_one zero one : Sign

abbrev is_one : Sign → Bool
is_one Sign.one = true
is_one _ = false

module _ (e : Ethers) where
  pub execution_comparator : CollectedSignatureKeyPair → CollectedSignatureKeyPair → Sign
  execution_comparator p q =
      let key1 = e.address_number p.key in
      let key2 = e.address_number q.key in
      if ltb key2 key1 then Sign.one else if ltb key1 key2 then Sign.minus_one else Sign.zero

  insert :
      CollectedSignatureKeyPair → List CollectedSignatureKeyPair → List CollectedSignatureKeyPair
  insert p [] = p ∷ []
  insert p (q ∷ qs) = if is_one (execution_comparator p q) then q ∷ insert p qs else p ∷ q ∷ qs

  unfoldable pub sort_signature_key_pairs_by_key :
      List CollectedSignatureKeyPair → List CollectedSignatureKeyPair
  unfolding insert execution_comparator
  sort_signature_key_pairs_by_key [] = []
  sort_signature_key_pairs_by_key (p ∷ ps) = insert p (sort_signature_key_pairs_by_key ps)

  -- Every pair's key is at most the keys of those after it.
  abbrev pub IsSortedByKey : List CollectedSignatureKeyPair → Type 0
  IsSortedByKey [] = Unit
  IsSortedByKey (p ∷ ps) =
      All (λ q. e.address_number p.key ≤ e.address_number q.key) ps × IsSortedByKey ps

  insert-perm :
      (p : CollectedSignatureKeyPair) (ps : List CollectedSignatureKeyPair)
      → Perm (insert p ps) (p ∷ ps)
  unfolding insert
  insert-perm p [] = Perm.refl (p ∷ [])
  insert-perm p (q ∷ qs) = elim (Bool-cases (is_one (execution_comparator p q))) [
    | inl above ↦ rw above (Perm.trans (Perm.cons q (insert-perm p qs)) (Perm.swap p q qs))
    | inr below ↦ rw below (Perm.refl (p ∷ q ∷ qs))
  ]

  insert-All :
      (n : ℕ) (p : CollectedSignatureKeyPair) (ps : List CollectedSignatureKeyPair)
      → n ≤ e.address_number p.key
      → All (λ q. n ≤ e.address_number q.key) ps
      → All (λ q. n ≤ e.address_number q.key) (insert p ps)
  unfolding insert
  insert-All n p [] h k = (h, tt)
  insert-All n p (q ∷ qs) h (k, ks) = ground (arith, insert-All n p qs h ks)

  All-le_trans :
      (m n : ℕ) (ps : List CollectedSignatureKeyPair)
      → m ≤ n
      → All (λ q. n ≤ e.address_number q.key) ps
      → All (λ q. m ≤ e.address_number q.key) ps
  All-le_trans m n [] h k = tt
  All-le_trans m n (p ∷ ps) h (k, ks) = (omega arith, All-le_trans m n ps h ks)

  insert-IsSortedByKey :
      (p : CollectedSignatureKeyPair) (ps : List CollectedSignatureKeyPair)
      → IsSortedByKey ps
      → IsSortedByKey (insert p ps)
  unfolding insert execution_comparator
  insert-IsSortedByKey p [] h = (tt, tt)
  insert-IsSortedByKey p (q ∷ qs) (h, hs) =
      elim (Bool-cases (ltb (e.address_number q.key) (e.address_number p.key))) [
        | inl above ↦ rw above (
          insert-All (e.address_number q.key) p qs (ground arith) h,
          insert-IsSortedByKey p qs hs,
        )
        | inr below ↦ ground (
          arith,
          All-le_trans (e.address_number p.key) (e.address_number q.key) qs (ground arith) h,
        )
      ]

  -- Sorting keeps every pair, as often as it was there.
  pub sort-perm :
      (ps : List CollectedSignatureKeyPair) → Perm (sort_signature_key_pairs_by_key ps) ps
  unfolding sort_signature_key_pairs_by_key
  sort-perm [] = Perm.refl []
  sort-perm (p ∷ ps) =
      Perm.trans (insert-perm p (sort_signature_key_pairs_by_key ps)) (Perm.cons p (sort-perm ps))

  -- The result is ascending in the signer's address.
  pub sort-IsSortedByKey :
      (ps : List CollectedSignatureKeyPair) → IsSortedByKey (sort_signature_key_pairs_by_key ps)
  unfolding sort_signature_key_pairs_by_key
  sort-IsSortedByKey [] = tt
  sort-IsSortedByKey (p ∷ ps) =
      insert-IsSortedByKey p (sort_signature_key_pairs_by_key ps) (sort-IsSortedByKey ps)
