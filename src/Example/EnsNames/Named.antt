-- ===== src/Example/EnsNames/Named.antt =====
-- Which entries get a name, and what an address without one does.
use universal_login_sdk.Prelude.{
  ℕ, Bool, true, false, Option, none, some, List, [], ◌∷◌, Text, codes, starts_with, Result, ok,
  err, ◌≡◌, refl, inl, inr, Bool-cases, Option-cases, if◌then◌else◌, any, is_some, not, map, arith,
  ap, sym, subst,
}
use universal_login_sdk.Example.History.{Presser}
use universal_login_sdk.Example.EnsNames.{
  EnsNameService, no_slice, change_name, change_names, change_pressers_name, round, loop, subscribe,
  unsubscribe_all,
}

-- An entry without a name.
abbrev pub nameless : Presser → Bool
nameless p = not (is_some p.name)

module _ (names : Text → Option Text) (lookup_address : ℕ → Text → Result Text (Option Text))
    (answers : (n : ℕ) (address : Text) → lookup_address n address ≡ ok (names address)) where
  nameless-none : (p : Presser) → nameless p ≡ true → p.name ≡ none
  nameless-none p h = ground arith

  change_none : (asked : ℕ) → change_name lookup_address none asked ≡ (err no_slice, asked)
  unfolding change_name
  change_none asked = refl

  -- The name of an entry after a round.
  abbrev pub name_after : Option Text → Option Text
  name_after none = none
  name_after (some name) = if starts_with name (codes "0x") then names name else some name

  abbrev pub resolved : Presser → Presser
  resolved p = record p { name = name_after p.name }

  change_name_lem :
      (name : Text) (asked : ℕ)
      → (change_name lookup_address (some name) asked).0 ≡ ok (name_after (some name))
  unfolding change_name
  change_name_lem name asked = let a = answers asked name in ground arith

  change_names_lem :
      (ps : List Presser) (asked : ℕ)
      → any nameless ps ≡ false
      → (asked' : ℕ) × (change_names lookup_address ps asked ≡ (ok tt, map resolved ps, asked'))
  unfolding change_names
  change_names_lem [] asked h = (asked, refl)
  change_names_lem (p ∷ ps) asked h =
      let (later, rest) = change_names_lem ps asked (ground arith) in
      elim (Option-cases p.name) [
        | inl none_left ↦ absurd (ground arith)
        | inr (name, named) ↦
            let changed = change_name_lem name later in
            ((change_name lookup_address (some name) later).1, ground arith)
      ]

  change_names_throw :
      (ps : List Presser) (asked : ℕ)
      → any nameless ps ≡ true
      → (change_names lookup_address ps asked).0 ≡ err no_slice
  unfolding change_names
  change_names_throw [] asked h = absurd (ground arith)
  change_names_throw (p ∷ ps) asked h = elim (Bool-cases (any nameless ps)) [
    | inl some_later ↦ let thrown = change_names_throw ps asked some_later in ground arith
    | inr none_later ↦
        let (later, rest) = change_names_lem ps asked none_later in
        let unnamed : p.name ≡ none = nameless-none p (ground arith) in
        let changed = change_none later in ground arith
  ]

  -- A round in which the provider answers, with entries that all have names, gives each entry that has an
  -- address for its name the address's ENS name, and leaves the other entries as they are.
  pub round-named :
      (s : EnsNameService)
      → s.is_working ≡ false
      → any nameless s.pressers ≡ false
      → (asked : ℕ) × (round lookup_address s
          ≡ (ok tt, record s { pressers = map resolved s.pressers; asked = asked }))
  unfolding round change_pressers_name
  round-named s idle named =
      let (asked, changed) = change_names_lem s.pressers s.asked named in (asked, ground arith)

  -- A service that takes itself to be working.
  round_busy : (s : EnsNameService) → s.is_working ≡ true → round lookup_address s ≡ (ok tt, s)
  unfolding round
  round_busy s busy = ground arith

  loop_busy_on :
      (rest : List Bool) (s : EnsNameService)
      → s.is_working ≡ true
      → s.running ≡ true
      → loop lookup_address (false ∷ rest) s ≡ loop lookup_address rest s
  unfolding loop
  loop_busy_on rest s busy runs = let one = round_busy s busy in ground arith

  loop_busy :
      (rounds : List Bool) (s : EnsNameService)
      → s.is_working ≡ true
      → ((loop lookup_address rounds s).1.pressers ≡ s.pressers)
        × ((loop lookup_address rounds s).1.is_working ≡ true)
  unfolding loop unsubscribe_all
  loop_busy [] s busy = (refl, busy)
  loop_busy (true ∷ rest) s busy = let one = round_busy s busy in ground arith
  loop_busy (false ∷ rest) s busy = elim (Bool-cases s.running) [
    | inl e ↦
        subst (λ t. (t.1.pressers ≡ s.pressers) × (t.1.is_working ≡ true))
          (sym (loop_busy_on rest s busy e)) (loop_busy rest s busy)
    | inr e ↦ let one = round_busy s busy in ground arith
  ]

  -- An entry whose name is an address without an ENS name.
  abbrev pub is_unnamed : Presser → Bool
  is_unnamed p = elim p.name [
    | none ↦ false
    | some name ↦ if starts_with name (codes "0x") then not (is_some (names name)) else false
  ]

  nameless-resolved : (p : Presser) → is_unnamed p ≡ true → nameless (resolved p) ≡ true
  nameless-resolved p h = elim (Option-cases p.name) [
    | inl e ↦ absurd (ground arith)
    | inr (name, e) ↦ ground arith
  ]

  any-nameless :
      (ps : List Presser) → any is_unnamed ps ≡ true → any nameless (map resolved ps) ≡ true
  any-nameless [] h = absurd (ground arith)
  any-nameless (p ∷ ps) h = elim (Bool-cases (is_unnamed p)) [
    | inl e ↦ let here = nameless-resolved p e in ground arith
    | inr e ↦ let later = any-nameless ps (ground arith) in ground arith
  ]

  round_throws :
      (s : EnsNameService)
      → s.is_working ≡ false
      → any nameless s.pressers ≡ true
      → ((round lookup_address s).0 ≡ err no_slice) × ((round lookup_address s).1.is_working ≡ true)
  unfolding round change_pressers_name
  round_throws s idle unnamed =
      let thrown = change_names_throw s.pressers s.asked unnamed in (ground arith, ground arith)

  -- Once the history has an entry whose address has no ENS name, the second round from there throws, and
  -- no later subscription ever changes a name again, since the service still takes itself to be working.
  pub round-ends :
      (s : EnsNameService)
      → s.is_working ≡ false
      → any nameless s.pressers ≡ false
      → any is_unnamed s.pressers ≡ true
      → let first = (round lookup_address s).1 in
        let second = round lookup_address first in
        (second.0 ≡ err no_slice)
        × ((rounds : List Bool)
            → (subscribe lookup_address rounds second.1).pressers ≡ second.1.pressers)
  unfolding subscribe
  round-ends s idle named unnamed =
      let (asked, one) = round-named s idle named in
      let after : EnsNameService = record s { pressers = map resolved s.pressers; asked = asked } in
      let is_after : (round lookup_address s).1 ≡ after = ap (λ r. r.1) one in
      subst
        (λ t.
          ((round lookup_address t).0 ≡ err no_slice)
          × ((rounds : List Bool)
              → (loop lookup_address rounds
                  (record (round lookup_address t).1 { running = true })).1.pressers
                ≡ (round lookup_address t).1.pressers))
        (sym is_after) (ends after idle (any-nameless s.pressers unnamed))
    where
      ends :
          (t : EnsNameService)
          → t.is_working ≡ false
          → any nameless t.pressers ≡ true
          → ((round lookup_address t).0 ≡ err no_slice)
            × ((rounds : List Bool)
                → (loop lookup_address rounds
                    (record (round lookup_address t).1 { running = true })).1.pressers
                  ≡ (round lookup_address t).1.pressers)
      ends t idle' unnamed' =
          let (thrown, busy) = round_throws t idle' unnamed' in
          (
            thrown,
            λ rounds.
                (loop_busy rounds (record (round lookup_address t).1 { running = true }) busy).0,
          )
