-- ===== src/Batch/Selector/Lookup.antt =====
-- The candidates that the selector finds by their ids, and those that it admits.
use lotus_report.Prelude.{
  String, ◌≡◌, refl, ap, subst, ◌∙◌, inl, inr, Bool, true, some, List, [], ◌∷◌, map, arith, All,
  All-imp, In, str_eq, eq_iff, Option-cases, Bool-cases,
}
use lotus_report.Sql.{Result, ok, err, fetchone, All-fetchone, All-true}
use lotus_report.Batch.Selector.{
  PortfolioBatchCandidate, ReportCallerContext, MaterializedPortfolio, SelectorError, ◌>>=◌,
  candidate_ids, candidate_for_id, candidates_for_ids, validate_candidate, materialized_of,
  materialize_each,
}

pub bind-ok {ℓ κ} :
    {A : Type ℓ} {B : Type κ} (m : Result SelectorError A) (f : A → Result SelectorError B) {b : B}
    → (m >>= f) ≡ ok b
    → (a : A) × (m ≡ ok a) × (f a ≡ ok b)
bind-ok (ok a) f h = (a, refl, h)
bind-ok (err e) f h = cc

-- The candidate is active and lies in the caller's tenant and region.
pub record IsAdmitted (caller : ReportCallerContext) (c : PortfolioBatchCandidate) : Type 0 where
  pub same_tenant : c.tenant_id ≡ caller.tenant_id
  pub same_region : c.region ≡ caller.region
  pub is_active : c.active ≡ true

validate-IsAdmitted :
    (c : PortfolioBatchCandidate) (caller : ReportCallerContext) (u : Unit {0})
    → validate_candidate c caller ≡ ok u
    → IsAdmitted caller c
unfolding validate_candidate
validate-IsAdmitted c caller u h =
    ground (arith, eq_iff c.tenant_id caller.tenant_id, eq_iff c.region caller.region)

pub materialize_each-ok :
    (cs : List PortfolioBatchCandidate) (caller : ReportCallerContext)
    (ms : List MaterializedPortfolio)
    → materialize_each cs caller ≡ ok ms
    → (ms ≡ map materialized_of cs) × All (IsAdmitted caller) cs
unfolding materialize_each
materialize_each-ok [] caller ms h = (ground arith, tt)
materialize_each-ok (c ∷ cs) caller ms h =
    let (u, admitted, rest) =
      bind-ok (validate_candidate c caller)
        (λ _. materialize_each cs caller >>= λ ns. ok (materialized_of c ∷ ns)) h in
    let (ns, each, built) =
      bind-ok (materialize_each cs caller) (λ ns. ok (materialized_of c ∷ ns)) rest in
    let (same, all) = materialize_each-ok cs caller ns each in
    (ground arith, (validate-IsAdmitted c caller u admitted, all))

fetchone-In :
    (p : PortfolioBatchCandidate → Bool) (cs : List PortfolioBatchCandidate)
    (c : PortfolioBatchCandidate)
    → fetchone p cs ≡ some c
    → In c cs
unfolding fetchone
fetchone-In p [] c h = cc
fetchone-In p (d ∷ ds) c h = elim (Bool-cases (p d)) [
  | inl t ↦ inl (ground arith)
  | inr f ↦ inr (fetchone-In p ds c (ground arith))
]

pub All-In : (cs : List PortfolioBatchCandidate) → All (λ c. In c cs) cs
All-In [] = tt
All-In (c ∷ cs) =
    (inl refl, All-imp (λ d. In d cs) (λ d. In d (c ∷ cs)) cs (λ d m. inr m) (All-In cs))

candidate_for_id-ok :
    (cs : List PortfolioBatchCandidate) (k : String) (c : PortfolioBatchCandidate)
    → candidate_for_id cs k ≡ ok c
    → In c cs × (c.portfolio_id ≡ k)
unfolding candidate_for_id
candidate_for_id-ok cs k c h = elim (Option-cases (fetchone (λ d. str_eq d.portfolio_id k) cs)) [
  | inl n ↦ absurd (cc n)
  | inr (d, f) ↦
      let same : d ≡ c = ground arith in
      (
        fetchone-In _ cs c (f ∙ ap some same),
        (eq_iff c.portfolio_id k).0 (
            subst (λ x. str_eq x.portfolio_id k ≡ true) same
              (All-fetchone (λ x. Unit {0}) (λ x. str_eq x.portfolio_id k) cs (All-true cs) f).1),
      )
]

pub candidates_for_ids-ok :
    (cs : List PortfolioBatchCandidate) (ks : List String) (sel : List PortfolioBatchCandidate)
    → candidates_for_ids cs ks ≡ ok sel
    → All (λ c. In c cs) sel × (candidate_ids sel ≡ ks)
unfolding candidates_for_ids
candidates_for_ids-ok cs [] sel h = let e : [] ≡ sel = ground arith in rw (← e) (tt, refl)
candidates_for_ids-ok cs (k ∷ ks) sel h =
    let (c, one, rest) =
      bind-ok (candidate_for_id cs k) (λ c. candidates_for_ids cs ks >>= λ ds. ok (c ∷ ds)) h in
    let (ds, more, built) = bind-ok (candidates_for_ids cs ks) (λ ds. ok (c ∷ ds)) rest in
    let (here, key) = candidate_for_id-ok cs k c one in
    let (all, keys) = candidates_for_ids-ok cs ks ds more in
    let e : c ∷ ds ≡ sel = ground arith in rw (← e) ((here, all), cc)
