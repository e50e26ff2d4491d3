-- ===== src/Commons/Signatures.antt =====
-- core/utils/messages/calculateMessageSignature.ts: many signatures in one text.
use universal_login_sdk.Prelude.{
  ℕ, zero, suc, ◌+◌, ◌*◌, ◌≡◌, refl, List, [], ◌∷◌, ◌++◌, Text, codes, arith, Result, ok, err,
  length, take, drop, All, eqb, starts_with, if◌then◌else◌, length-append, take-append_of_length,
  drop-append_of_length, not, ◌≢◌, ◌⊎◌, inl, inr, false, Bool-cases,
}

-- A step that throws stops the `map` it stands in.
infixl 5 ◌>>=◌
abbrev pub ◌>>=◌ : {E A B : Type 0} → Result E A → (A → Result E B) → Result E B
ok a >>= f = f a
err e >>= f = err e

-- `removePrefix`, which throws a string
unfoldable pub remove_prefix : Text → Result Text Text
remove_prefix value =
    if not (eqb (length value) 132)
    then err (codes "Invalid signature length: " ++ (value ++ codes " should be 132"))
    else if not (starts_with value (codes "0x"))
    then err (codes "Invalid Signature: " ++ (value ++ codes " needs prefix 0x"))
    else ok (drop 2 value)

-- `signatures.map(removePrefix).join('')`
strip_all : List Text → Result Text Text
strip_all [] = ok []
strip_all (s ∷ ss) = do stripped ← remove_prefix s; rest ← strip_all ss; ok (stripped ++ rest)

unfoldable pub concatenate_signatures : List Text → Result Text Text
unfolding strip_all
concatenate_signatures ss = do digits ← strip_all ss; ok (codes "0x" ++ digits)

-- A signature as a wallet makes it: "0x" and 130 digits.
pub record IsSignature (s : Text) : Type 0 where
  pub digits : Text
  pub counted : length digits ≡ 130
  pub spelled : s ≡ codes "0x" ++ digits

-- The pieces of 130 digits each, as the wallet contract cuts them.
pub pieces : ℕ → Text → List Text
pieces zero t = []
pieces (suc n) t = (codes "0x" ++ take 130 t) ∷ pieces n (drop 130 t)

remove_prefix_lem : (s : Text) (v : IsSignature s) → remove_prefix s ≡ ok v.digits
unfolding remove_prefix starts_with
remove_prefix_lem s v = rw v.spelled (ground (arith, v.counted))

strip_all_lem :
    (ss : List Text)
    → All IsSignature ss
    → (t : Text) × (strip_all ss ≡ ok t)
      × (length t ≡ 130 * length ss)
      × (pieces (length ss) t ≡ ss)
unfolding strip_all pieces
strip_all_lem [] h = ([], refl, omega arith, refl)
strip_all_lem (s ∷ ss) (v, h) =
    let (t, e, l, p) = strip_all_lem ss h in
    let head = take-append_of_length 130 v.digits t v.counted in
    let rest = drop-append_of_length 130 v.digits t v.counted in
    (
      v.digits ++ t,
      rw (remove_prefix_lem s v, e),
      omega (arith, length-append v.digits t, v.counted),
      rw (head, rest, p, v.spelled),
    )

-- Well-formed signatures are joined to one text of "0x" and 130 digits for each, from which they
-- can be cut again in the same order.
pub concatenate_signatures-pieces :
    (ss : List Text)
    → All IsSignature ss
    → (t : Text) × (concatenate_signatures ss ≡ ok t)
      × (length t ≡ 2 + 130 * length ss)
      × (pieces (length ss) (drop 2 t) ≡ ss)
unfolding concatenate_signatures
concatenate_signatures-pieces ss h =
    let (t, e, l, p) = strip_all_lem ss h in (codes "0x" ++ t, rw e, omega arith, p)

abbrev IsMalformed : Text → Type 0
IsMalformed s = (length s ≢ 132) ⊎ (starts_with s (codes "0x") ≡ false)

remove_prefix_throws : (s : Text) → IsMalformed s → (thrown : Text) × (remove_prefix s ≡ err thrown)
unfolding remove_prefix
remove_prefix_throws s (inl h) =
    let e : eqb (length s) 132 ≡ false = ground arith in
    (codes "Invalid signature length: " ++ (s ++ codes " should be 132"), rw e)
remove_prefix_throws s (inr h) = elim (Bool-cases (eqb (length s) 132)) [
  | inl e ↦ (codes "Invalid Signature: " ++ (s ++ codes " needs prefix 0x"), rw (e, h))
  | inr e ↦ (codes "Invalid signature length: " ++ (s ++ codes " should be 132"), rw e)
]

strip_all_throws :
    (before after : List Text) (s : Text)
    → All IsSignature before
    → IsMalformed s
    → (thrown : Text) × (strip_all (before ++ s ∷ after) ≡ err thrown)
unfolding strip_all
strip_all_throws [] after s h bad = let (thrown, e) = remove_prefix_throws s bad in (thrown, rw e)
strip_all_throws (b ∷ before) after s (v, h) bad =
    let (thrown, e) = strip_all_throws before after s h bad in
    (thrown, rw (remove_prefix_lem b v, e))

-- A signature of another length, or without the prefix, makes the whole call throw.
pub concatenate_signatures_throws :
    (before after : List Text) (s : Text)
    → All IsSignature before
    → IsMalformed s
    → (thrown : Text) × (concatenate_signatures (before ++ s ∷ after) ≡ err thrown)
unfolding concatenate_signatures
concatenate_signatures_throws before after s h bad =
    let (thrown, e) = strip_all_throws before after s h bad in (thrown, rw e)
