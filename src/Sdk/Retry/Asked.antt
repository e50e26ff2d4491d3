-- ===== src/Sdk/Retry/Asked.antt =====
-- Lists of requests that go on another, of a kind, and so many at most.
use universal_login_sdk.Prelude.{
  ℕ, suc, ◌≤◌, ◌≡◌, ◌∙◌, List, [], ◌∷◌, ◌++◌, All, All-append, length, append_assoc, length-append,
  arith, sym,
}
use universal_login_sdk.Sdk.RelayerApi.{HttpRequest}

-- So many requests of a kind were made at most, after the ones before.
abbrev pub Asked : (HttpRequest → Type 0) → ℕ → List HttpRequest → List HttpRequest → Type 0
Asked Kind k before after =
    (later : List HttpRequest) × (after ≡ later ++ before) × All Kind later × (length later ≤ k)

pub Asked-∷ :
    (Kind : HttpRequest → Type 0) (k : ℕ) (r : HttpRequest) (before after : List HttpRequest)
    → Kind r
    → Asked Kind k (r ∷ before) after
    → Asked Kind (suc k) before after
Asked-∷ Kind k r before after kind (later, e, all, most) = (
  later ++ r ∷ [],
  e ∙ sym (append_assoc later (r ∷ []) before),
  All-append Kind later (r ∷ []) all (kind, tt),
  omega (arith, length-append later (r ∷ [])),
)

weaken-All :
    (Kind Other : HttpRequest → Type 0) (xs : List HttpRequest)
    → ((r : HttpRequest) → Kind r → Other r)
    → All Kind xs
    → All Other xs
weaken-All Kind Other [] other all = tt
weaken-All Kind Other (x ∷ xs) other (first, all) =
    (other x first, weaken-All Kind Other xs other all)

-- Requests of another kind that these are.
pub weaken-Asked :
    (Kind Other : HttpRequest → Type 0) (k : ℕ) (before after : List HttpRequest)
    → ((r : HttpRequest) → Kind r → Other r)
    → Asked Kind k before after
    → Asked Other k before after
weaken-Asked Kind Other k before after other (later, e, all, most) =
    (later, e, weaken-All Kind Other later other all, most)
