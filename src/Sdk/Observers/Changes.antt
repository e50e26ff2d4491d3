-- ===== src/Sdk/Observers/Changes.antt =====
-- When the relayer's observer calls its listeners.
use universal_login_sdk.Prelude.{
  Result-cases, ◌≡◌, ◌∙◌, inl, inr, Bool, true, false, Option, List, [], ◌∷◌, ◌++◌, Text, codes,
  to_lower_case, append_assoc, ok, arith, ap, subst, sym,
}
use universal_login_sdk.Commons.Json.{Json}
use universal_login_sdk.Sdk.RelayerApi.{Net}
use universal_login_sdk.Sdk.RelayerApi
use universal_login_sdk.Sdk.Observers.{
  Emitter, Call, RelayerObserver, emit, fetch_pending_authorisations, on_authorisations,
  check_authorisations_changed_for, check_each,
}

module _ (net : Net) (base_url : Text) (deep_equal : Option Json → Option Json → Bool)
    (answers : Text → Option Json) where
  -- The relayer answers the same for an address, however often it is asked.
  abbrev pub IsSteady : Type 0
  IsSteady =
      (address : Text) (o : RelayerObserver)
      → (fetch_pending_authorisations net base_url deep_equal address o).0 ≡ ok (answers address)

  abbrev pub answer_for : Emitter → Option Json
  answer_for e = answers (to_lower_case e.filter.contract_address)

  abbrev pub notice : Emitter → List Call
  notice e = emit (codes "AuthorisationsChanged") (answer_for e) e.listeners

  fetch_keeps :
      (address : Text) (o : RelayerObserver)
      → ((fetch_pending_authorisations net base_url deep_equal address o).1.calls ≡ o.calls)
        × ((fetch_pending_authorisations net base_url deep_equal address o).1.last_authorisations
            ≡ o.last_authorisations)
  unfolding fetch_pending_authorisations
  fetch_keeps address o =
      elim (Result-cases (RelayerApi.get_pending_authorisations net base_url address o.line).0) [
        | inl (x, e1) ↦ (ground arith, ground arith)
        | inr (a, e1) ↦ (ground arith, ground arith)
      ]

  -- A check where the answer is not the last one calls the listeners.
  check_changed :
      (e : Emitter) (o : RelayerObserver)
      → IsSteady
      → deep_equal (answer_for e) o.last_authorisations ≡ false
      → ((check_authorisations_changed_for net base_url deep_equal e o).0 ≡ ok tt)
        × ((check_authorisations_changed_for net base_url deep_equal e o).1.calls
            ≡ o.calls ++ notice e)
        × ((check_authorisations_changed_for net base_url deep_equal e o).1.last_authorisations
            ≡ answer_for e)
  unfolding check_authorisations_changed_for on_authorisations
  check_changed e o steady changed =
      let answered = steady (to_lower_case e.filter.contract_address) o in
      let (calls, last) = fetch_keeps (to_lower_case e.filter.contract_address) o in
      (ground arith, ground arith, ground arith)

  -- A check where the answer is the last one calls nobody.
  check_same :
      (e : Emitter) (o : RelayerObserver)
      → IsSteady
      → deep_equal (answer_for e) o.last_authorisations ≡ true
      → ((check_authorisations_changed_for net base_url deep_equal e o).0 ≡ ok tt)
        × ((check_authorisations_changed_for net base_url deep_equal e o).1.calls ≡ o.calls)
        × ((check_authorisations_changed_for net base_url deep_equal e o).1.last_authorisations
            ≡ o.last_authorisations)
  unfolding check_authorisations_changed_for on_authorisations
  check_same e o steady same =
      let answered = steady (to_lower_case e.filter.contract_address) o in
      let (calls, last) = fetch_keeps (to_lower_case e.filter.contract_address) o in
      (ground arith, ground arith, ground arith)

  check_each-∷ :
      (e : Emitter) (es : List Emitter) (o : RelayerObserver)
      → (check_authorisations_changed_for net base_url deep_equal e o).0 ≡ ok tt
      → check_each net base_url deep_equal (e ∷ es) o
        ≡ check_each net base_url deep_equal es
            (check_authorisations_changed_for net base_url deep_equal e o).1
  unfolding check_each
  check_each-∷ e es o done = ground arith

  -- While the relayer answers alike, and two wallets with different requests are asked about in turn, a
  -- tick that begins with the second one's answer kept reports both, and ends with that answer kept,
  -- so that the next tick does so again.
  pub check_each-unchanged :
      (a b : Emitter) (o : RelayerObserver)
      → IsSteady
      → deep_equal (answer_for a) (answer_for b) ≡ false
      → deep_equal (answer_for b) (answer_for a) ≡ false
      → o.last_authorisations ≡ answer_for b
      → ((check_each net base_url deep_equal (a ∷ b ∷ []) o).1.calls
          ≡ o.calls ++ (notice a ++ notice b))
        × ((check_each net base_url deep_equal (a ∷ b ∷ []) o).1.last_authorisations ≡ answer_for b)
  unfolding check_each
  check_each-unchanged a b o steady ab ba last =
      let o' : RelayerObserver = (check_authorisations_changed_for net base_url deep_equal a o).1 in
      let (done, calls, kept) =
        check_changed a o steady (subst (λ x. deep_equal (answer_for a) x ≡ false) (sym last) ab) in
      let (done', calls', kept') =
        check_changed b o' steady
          (subst (λ x. deep_equal (answer_for b) x ≡ false) (sym kept) ba) in
      let run = check_each-∷ a (b ∷ []) o done ∙ check_each-∷ b [] o' done' in
      (
        ap (λ r. r.1.calls) run
            ∙ calls'
            ∙ ap (λ before. before ++ notice b) calls
            ∙ append_assoc o.calls (notice a) (notice b),
        ap (λ r. r.1.last_authorisations) run ∙ kept',
      )
