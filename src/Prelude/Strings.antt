-- ===== src/Prelude/Strings.antt =====
-- JavaScript strings, as lists of UTF-16 code units, with the string methods the program calls.
use Prim.Native.Nat.{ℕ, zero, suc, ◌+◌, ◌-◌, ◌*◌, ◌/◌, ◌%◌, ◌<◌}
use Prim.Native.Char.{code}
use Prim.Native.String.{String}
use mathlib.Core.Path.{◌≡◌, refl, ap}
use mathlib.Core.Logic.{◌↔◌, ◌≢◌, inl, inr}
use mathlib.Core.Bool.{Bool, true, false, ◌&&◌}
use mathlib.Core.List.{List, [], ◌∷◌, ◌++◌, map, append-nil, append_assoc}
use native.Mathlib.Omega.{arith}
use universal_login_sdk.Prelude.Tests.{leb, ltb, eqb, Bool-cases, if◌then◌else◌}

abbrev pub Text : Type 0
Text = List ℕ

-- The code units of a literal in the source, which are all ASCII.
abbrev pub codes : String → Text
codes String.[] = []
codes (String.◌∷◌ c s) = code c ∷ codes s

-- `unit.repeat(n)`
abbrev pub repeat : ℕ → ℕ → Text
repeat zero c = []
repeat (suc n) c = c ∷ repeat n c

-- `===` on strings
infix 50 ◌==◌
unfoldable pub ◌==◌ : Text → Text → Bool
[] == [] = true
[] == (y ∷ ys) = false
(x ∷ xs) == [] = false
(x ∷ xs) == (y ∷ ys) = eqb x y && xs == ys

pub ==_iff : (s t : Text) → ((s == t) ≡ true) ↔ (s ≡ t)
unfolding ◌==◌
==_iff [] [] = ground arith
==_iff [] (y ∷ ys) = ground arith
==_iff (x ∷ xs) [] = ground arith
==_iff (x ∷ xs) (y ∷ ys) = ground (arith, ==_iff xs ys)

pub ==_refl : (s : Text) → (s == s) ≡ true
==_refl s = (==_iff s s).1 refl

pub ==_ne : (s t : Text) → s ≢ t → (s == t) ≡ false
==_ne s t h = ground (arith, ==_iff s t)

-- `s.startsWith(prefix)`
unfoldable pub starts_with : Text → Text → Bool
starts_with s [] = true
starts_with [] (p ∷ ps) = false
starts_with (c ∷ s) (p ∷ ps) = eqb c p && starts_with s ps

pub starts_with-append : (p s : Text) → starts_with (p ++ s) p ≡ true
unfolding starts_with
starts_with-append [] s = refl
starts_with-append (c ∷ p) s = ground (arith, starts_with-append p s)

-- What a prefix leaves.
pub starts_with-eq-append : (s p : Text) → starts_with s p ≡ true → (rest : Text) × (s ≡ p ++ rest)
unfolding starts_with
starts_with-eq-append s [] h = (s, refl)
starts_with-eq-append [] (p ∷ ps) h = cc
starts_with-eq-append (c ∷ s) (p ∷ ps) h =
    let (rest, e) = starts_with-eq-append s ps (ground arith) in
    let same : c ≡ p = ground arith in (rest, cc)

-- `s.toLowerCase()` on ASCII text, which addresses and keys are
abbrev pub lower_unit : ℕ → ℕ
lower_unit c = if leb b'A' c && leb c b'Z' then c + 32 else c

unfoldable pub to_lower_case : Text → Text
to_lower_case = map lower_unit

lower_unit_idem : (c : ℕ) → lower_unit (lower_unit c) ≡ lower_unit c
lower_unit_idem c = ground arith

pub to_lower_case_idem : (s : Text) → to_lower_case (to_lower_case s) ≡ to_lower_case s
unfolding to_lower_case
to_lower_case_idem [] = refl
to_lower_case_idem (c ∷ s) = cc (lower_unit_idem c, to_lower_case_idem s)

-- `parts.join(separator)`
unfoldable pub join : Text → List Text → Text
join sep [] = []
join sep (t ∷ []) = t
join sep (t ∷ u ∷ ts) = t ++ (sep ++ join sep (u ∷ ts))

-- `text.split(separator)` for a separator of one code unit
split_from : ℕ → Text → Text → List Text
split_from sep cur [] = cur ∷ []
split_from sep cur (c ∷ s) =
    let closed = cur ∷ split_from sep [] s in
    let longer = split_from sep (cur ++ c ∷ []) s in if eqb c sep then closed else longer

unfoldable pub split : ℕ → Text → List Text
unfolding split_from
split sep s = split_from sep [] s

split_from-nonempty :
    (sep : ℕ) (cur s : Text) → (t : Text) × (ts : List Text) × (split_from sep cur s ≡ t ∷ ts)
unfolding split_from
split_from-nonempty sep cur [] = (cur, [], refl)
split_from-nonempty sep cur (c ∷ s) = elim (Bool-cases (eqb c sep)) [
  | inl e1 ↦ (cur, split_from sep [] s, rw e1)
  | inr e1 ↦ let (t, ts, e2) = split_from-nonempty sep (cur ++ c ∷ []) s in (t, ts, rw e1 e2)
]

join-split_from : (sep : ℕ) (cur s : Text) → join (sep ∷ []) (split_from sep cur s) ≡ cur ++ s
unfolding split_from join
join-split_from sep cur [] = ground (arith, append-nil cur)
join-split_from sep cur (c ∷ s) = elim (Bool-cases (eqb c sep)) [
  | inl e1 ↦
      let (t, ts, e2) = split_from-nonempty sep [] s in
      let later = join-split_from sep [] s in ground (arith, later, e1, e2)
  | inr e1 ↦ rw (e1, join-split_from sep (cur ++ c ∷ []) s, append_assoc cur (c ∷ []) s)
]

-- The parts of a text, joined again, are the text.
pub join-split : (sep : ℕ) (s : Text) → join (sep ∷ []) (split sep s) ≡ s
unfolding split
join-split sep s = join-split_from sep [] s

-- A number in decimal. Each round divides by ten, so `n + 1` rounds are enough.
decimal_from : ℕ → ℕ → Text → Text
decimal_from zero n digits = digits
decimal_from (suc fuel) n digits =
    let rest = decimal_from fuel (n / 10) ((b'0' + n % 10) ∷ digits) in
    if ltb n 10 then (b'0' + n) ∷ digits else rest

unfoldable pub to_decimal : ℕ → Text
unfolding decimal_from
to_decimal n = decimal_from (suc n) n []

-- The number that digits spell, after those that were read before.
abbrev pub digits_value : ℕ → Text → ℕ
digits_value n [] = n
digits_value n (c ∷ t) = digits_value (n * 10 + (c - b'0')) t

digits_value-decimal_from :
    (fuel n : ℕ) (digits : Text)
    → n < fuel
    → digits_value 0 (decimal_from fuel n digits) ≡ digits_value n digits
unfolding decimal_from
digits_value-decimal_from zero n digits h = absurd (omega arith)
digits_value-decimal_from (suc fuel) n digits h = elim (Bool-cases (ltb n 10)) [
  | inl e1 ↦ rw e1 (ap (λ x. digits_value x digits) (omega arith))
  | inr e1 ↦
      rw (e1, digits_value-decimal_from fuel (n / 10) ((b'0' + n % 10) ∷ digits) (below e1))
        (ap (λ x. digits_value x digits) (omega arith))
]
  where
    below : ltb n 10 ≡ false → n / 10 < fuel
    below e1 = ground arith

-- A number is read back from its decimal.
pub digits_value-to_decimal : (n : ℕ) → digits_value 0 (to_decimal n) ≡ n
unfolding to_decimal
digits_value-to_decimal n = digits_value-decimal_from (suc n) n [] (omega arith)

to_decimal_runs : to_decimal 1050 ≡ codes "1050"
unfolding to_decimal
to_decimal_runs = refl

split_runs : split b'.' (codes "a.b.") ≡ codes "a" ∷ codes "b" ∷ [] ∷ []
unfolding split
split_runs = refl
