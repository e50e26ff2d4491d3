-- ===== src/Example/History/Rounds.antt =====
-- What the rounds of the history's loop show.
use universal_login_sdk.Prelude.{
  ℕ, suc, ◌+◌, ◌≤◌, ◌≡◌, refl, sym, ap, ◌∙◌, subst, Bool, true, false, List, [], ◌∷◌, ◌++◌, ok, map,
  length, length-append, append_assoc, arith, All, All-append, if◌then◌else◌,
}
use mathlib.Core.List.{reverse}
use universal_login_sdk.Example.History.{
  Log, Presser, Shown, Chain, HistoryService, add_new, round, calculate_result, get_press_logs,
  from_block_of, last_click_of, loop, subscribe, new_service,
}
use universal_login_sdk.Example.History.Listed.{
  map-reverse, from_block_of_short, add_new_pressers, add_new-grown, source_of, identity_of,
}

module _ (chain : Chain) where
  module _ (logs : ℕ → List Log) where
    -- A node that answers, whose chain is short enough for all its logs to be asked for, and whose logs
    -- only get more.
    pub record IsGrowing : Type 0 where
      pub short : (n : ℕ) → (b : ℕ) × (chain.get_block_number n ≡ ok b) × (b ≤ 500000)
      pub answers : (n : ℕ) → chain.get_logs n 0 ≡ ok (logs n)
      pub grows : (n : ℕ) → (new : List Log) × (logs (suc n) ≡ logs n ++ new)

    -- The events of some moment, the newest first.
    abbrev pub IsOf : Shown → Type 0
    IsOf r = (n : ℕ) × (map source_of r.events ≡ reverse (map identity_of (logs n)))

    record IsListed (s : HistoryService) : Type 0 where
      old : List Log
      rest : List Log
      now : logs s.asked ≡ old ++ rest
      listed : map source_of s.pressers ≡ map identity_of old
      true_shown : All IsOf s.shown

    get_press_logs-growing :
        IsGrowing
        → (s : HistoryService)
        → get_press_logs chain s ≡ (ok (logs (suc s.asked)), record s { asked = suc (suc s.asked) })
    unfolding get_press_logs
    get_press_logs-growing g s =
        let (b, last, near) = g.short s.asked in
        let from : from_block_of b ≡ 0 = from_block_of_short b near in
        let logged = g.answers (suc s.asked) in rw (last, from, logged) refl

    -- The service after a round, and what its callback got.
    abbrev listing : HistoryService → List Presser
    listing s =
        (add_new chain (logs (suc s.asked)) (record s { asked = suc (suc s.asked) })).pressers

    abbrev result_of : HistoryService → Shown
    result_of s = record {
      loaded = true;
      events = reverse (listing s);
      last_click = last_click_of (reverse (listing s));
    }

    abbrev after_round : Bool → HistoryService → HistoryService
    after_round unsubscribed s = record {
      running = if unsubscribed then false else s.running;
      pressers = listing s;
      asked = suc (suc s.asked);
      shown = s.shown ++ result_of s ∷ [];
    }

    calculate_result_lem :
        IsGrowing
        → (s : HistoryService)
        → calculate_result chain s
          ≡ (ok (result_of s), record s { asked = suc (suc s.asked); pressers = listing s })
    unfolding calculate_result
    calculate_result_lem g s =
        let answered = get_press_logs-growing g s in
        let same =
          add_new_pressers chain (logs (suc s.asked)) (record s { asked = suc (suc s.asked) }) in
        ground arith

    round_lem :
        IsGrowing
        → (unsubscribed : Bool) (s : HistoryService)
        → round chain unsubscribed s ≡ (ok tt, after_round unsubscribed s)
    unfolding round
    round_lem g unsubscribed s = let result = calculate_result_lem g s in ground arith

    round-IsListed :
        IsGrowing
        → (unsubscribed : Bool) (s : HistoryService) → IsListed s
        → IsListed (after_round unsubscribed s)
    round-IsListed g unsubscribed s k =
        let (new, grown) = g.grows s.asked in
        let (newer, grown') = g.grows (suc s.asked) in
        let now : logs (suc s.asked) ≡ k.old ++ (k.rest ++ new) =
          grown ∙ ap (λ r. r ++ new) k.now ∙ append_assoc k.old k.rest new in
        let listed : map source_of (listing s) ≡ map identity_of (logs (suc s.asked)) =
          subst
            (λ r.
              map source_of (add_new chain r (record s { asked = suc (suc s.asked) })).pressers
              ≡ map identity_of r)
            (sym now)
            (add_new-grown chain k.old (k.rest ++ new) (record s { asked = suc (suc s.asked) })
              k.listed) in
        record {
          old = logs (suc s.asked);
          rest = newer;
          now = grown';
          listed = listed;
          true_shown =
              All-append IsOf s.shown (result_of s ∷ []) k.true_shown
                ((suc s.asked, map-reverse source_of (listing s) ∙ ap reverse listed), tt);
        }

    -- How many rounds begin, where these sleeps end: none after a call of `unsubscribeAll`.
    abbrev pub rounds_of : List Bool → ℕ
    rounds_of [] = 0
    rounds_of (unsubscribed ∷ rest) = suc (if unsubscribed then 0 else rounds_of rest)

    loop_on :
        IsGrowing
        → (rest : List Bool) (s : HistoryService) → s.running ≡ true
        → loop chain (false ∷ rest) s ≡ loop chain rest (after_round false s)
    unfolding loop
    loop_on g rest s runs = let one = round_lem g false s in ground arith

    loop_off :
        IsGrowing
        → (rest : List Bool) (s : HistoryService)
        → loop chain (true ∷ rest) s ≡ (ok tt, after_round true s)
    unfolding loop
    loop_off g rest s = let one = round_lem g true s in ground arith

    new-IsListed : IsListed (record new_service { running = true })
    new-IsListed = record { old = []; rest = logs 0; now = refl; listed = refl; true_shown = tt }

    loop-IsListed :
        IsGrowing
        → (rounds : List Bool) (s : HistoryService) → s.running ≡ true
        → IsListed s
        → IsListed (loop chain rounds s).1
          × ((loop chain rounds s).0 ≡ ok tt)
          × (length (loop chain rounds s).1.shown ≡ length s.shown + rounds_of rounds)
    unfolding loop
    loop-IsListed g [] s runs k = (k, refl, omega arith)
    loop-IsListed g (true ∷ rest) s runs k =
        let counted = length-append {0} s.shown (result_of s ∷ []) in
        subst
          (λ t.
            IsListed t.1
            × (t.0 ≡ ok tt)
            × (length t.1.shown ≡ length s.shown + rounds_of (true ∷ rest)))
          (sym (loop_off g rest s)) (round-IsListed g true s k, refl, omega (arith, counted))
    loop-IsListed g (false ∷ rest) s runs k =
        let (k', fine, count) =
          loop-IsListed g rest (after_round false s) runs (round-IsListed g false s k) in
        let counted = length-append {0} s.shown (result_of s ∷ []) in
        subst
          (λ t.
            IsListed t.1
            × (t.0 ≡ ok tt)
            × (length t.1.shown ≡ length s.shown + rounds_of (false ∷ rest)))
          (sym (loop_on g rest s runs)) (k', fine, omega (arith, count, counted))

    -- Where the node answers, its chain is short enough to be asked for whole, and its logs only get
    -- more, the loop goes on until unsubscribeAll is called, never throws, and calls the callback once a
    -- round, each time with all logs of some moment, the newest first.
    pub subscribe-shown :
        IsGrowing
        → (rounds : List Bool)
        → All IsOf (subscribe chain rounds new_service).shown
          × (length (subscribe chain rounds new_service).shown ≡ rounds_of rounds)
    unfolding subscribe
    subscribe-shown g rounds =
        let (k, fine, count) =
          loop-IsListed g rounds (record new_service { running = true }) refl new-IsListed in
        (k.true_shown, omega (arith, count))
