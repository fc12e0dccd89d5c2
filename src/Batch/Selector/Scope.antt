-- ===== src/Batch/Selector/Scope.antt =====
-- What is known of the portfolios that `materialize_portfolios` returns.
use lotus_report.Prelude.{
  ℕ, not, ◌≤◌, if◌then◌else◌, String, ◌≡◌, ap, subst, ◌∙◌, false, List, [], ◌∷◌, map, arith, All,
  All-imp, In, length, ltb, str_eq,
}
use lotus_report.Sql.{Result, ok, err, select, All-select}
use lotus_report.Text.{strip}
use lotus_report.Batch.Selector.{
  BatchSelectorMode, PortfolioBatchCandidate, BatchCreateRequest, ReportCallerContext,
  MaterializedPortfolio, SelectorError, ◌>>=◌, has_duplicate, candidate_ids, candidate_map,
  explicit_portfolio_ids, candidates_for_ids, sort_candidates, some_selected, select_candidates,
  materialized_of, materialize_each, materialize_portfolios,
}
use lotus_report.Batch.Selector.Lookup.{
  bind-ok, IsAdmitted, materialize_each-ok, All-In, candidates_for_ids-ok,
}
use lotus_report.Batch.Selector.Distinct.{
  sort-All, has_duplicate-sort, has_duplicate-select, length-candidate_ids,
}

explicit_portfolio_ids-ok :
    (ids ks : List String)
    → explicit_portfolio_ids ids ≡ ok ks
    → (has_duplicate ks ≡ false) × (1 ≤ length ks)
unfolding explicit_portfolio_ids
explicit_portfolio_ids-ok ids ks h = go (select (λ k. not (str_eq k "")) (map strip ids)) h
  where
    go :
        (ns : List String)
        → (let r : Result SelectorError (List String) = elim ns [
          | [] ↦ err SelectorError.empty_batch_selector
          | n ∷ rest ↦
              if has_duplicate (n ∷ rest)
              then err SelectorError.duplicate_requested_portfolio
              else ok (n ∷ rest)
        ] in
            r ≡ ok ks)
        → (has_duplicate ks ≡ false) × (1 ≤ length ks)
    go [] e = cc
    go (n ∷ rest) e = ground arith

-- What one selector mode returns, from candidates with different ids.
abbrev Selection : List PortfolioBatchCandidate → List PortfolioBatchCandidate → Type 0
Selection cs sel =
    All (λ c. In c cs) sel × (has_duplicate (candidate_ids sel) ≡ false) × (1 ≤ length sel)

explicit-Selection :
    (ids : List String) (cs sel : List PortfolioBatchCandidate)
    → (explicit_portfolio_ids ids >>= λ ks. candidates_for_ids cs ks) ≡ ok sel
    → Selection cs sel
explicit-Selection ids cs sel h =
    let (ks, listed, found) = bind-ok (explicit_portfolio_ids ids) (candidates_for_ids cs) h in
    let (distinct, some_id) = explicit_portfolio_ids-ok ids ks listed in
    let (all, keys) = candidates_for_ids-ok cs ks sel found in
    (all, rw keys distinct, omega (arith, ap length keys, length-candidate_ids sel))

some_selected-Selection :
    (cs ds sel : List PortfolioBatchCandidate)
    → All (λ c. In c cs) ds
    → has_duplicate (candidate_ids ds) ≡ false
    → some_selected ds ≡ ok sel
    → Selection cs sel
unfolding some_selected
some_selected-Selection cs [] sel all distinct h = cc
some_selected-Selection cs (d ∷ ds) sel all distinct h =
    let e : d ∷ ds ≡ sel = ground arith in rw (← e) (all, distinct, omega arith)

select_candidates-Selection :
    (mode : BatchSelectorMode) (ids : List String) (cs sel : List PortfolioBatchCandidate)
    → has_duplicate (candidate_ids cs) ≡ false
    → select_candidates mode ids cs ≡ ok sel
    → Selection cs sel
unfolding select_candidates
select_candidates-Selection BatchSelectorMode.explicit_portfolio_list ids cs sel u h =
    explicit-Selection ids cs sel h
select_candidates-Selection BatchSelectorMode.selected_subset ids cs sel u h =
    let chosen = select (λ c. c.selected) cs in
    some_selected-Selection cs (sort_candidates chosen) sel
      (sort-All _ chosen (
        All-imp _ _ chosen (λ c m. m.0)
          (All-select (λ c. In c cs) (λ c. c.selected) cs (All-In cs))))
      (has_duplicate-sort chosen ∙ has_duplicate-select (λ c. c.selected) cs u) h
select_candidates-Selection BatchSelectorMode.all_active_portfolios ids cs sel u h =
    some_selected-Selection cs (sort_candidates cs) sel (sort-All _ cs (All-In cs))
      (has_duplicate-sort cs ∙ u) h
select_candidates-Selection BatchSelectorMode.batch_manifest ids cs sel u h =
    explicit-Selection ids cs sel h

candidate_map-ok :
    (source cs : List PortfolioBatchCandidate)
    → candidate_map source ≡ ok cs
    → (has_duplicate (candidate_ids cs) ≡ false) × (cs ≡ source)
unfolding candidate_map
candidate_map-ok source cs h = ground arith

within_bound :
    (n : ℕ) (sel : List PortfolioBatchCandidate) (caller : ReportCallerContext)
    (ms : List MaterializedPortfolio)
    → (if ltb n (length sel)
        then err SelectorError.batch_size_exceeded
        else materialize_each sel caller)
      ≡ ok ms
    → (length sel ≤ n) × (materialize_each sel caller ≡ ok ms)
within_bound n sel caller ms h = ground arith

-- The portfolios of an accepted batch request: between one and the requested maximum of
-- different source candidates, each active and in the caller's tenant and region.
pub record IsMaterialized (request : BatchCreateRequest) (caller : ReportCallerContext)
    (ms : List MaterializedPortfolio) : Type 0 where
  pub chosen : List PortfolioBatchCandidate
  pub in_order : ms ≡ map materialized_of chosen
  pub from_source : All (λ c. In c request.source_candidates) chosen
  pub admitted : All (IsAdmitted caller) chosen
  pub distinct : has_duplicate (candidate_ids chosen) ≡ false
  pub not_empty : 1 ≤ length chosen
  pub bounded : length chosen ≤ request.max_batch_size

-- Whatever the selector mode, an accepted request yields between one and `max_batch_size`
-- portfolios, which are source candidates with different ids, in the order chosen, each active and
-- in the tenant and the region of the caller.
pub materialize_portfolios-IsMaterialized :
    (request : BatchCreateRequest) (caller : ReportCallerContext) (ms : List MaterializedPortfolio)
    → materialize_portfolios request caller ≡ ok ms
    → IsMaterialized request caller ms
unfolding materialize_portfolios
materialize_portfolios-IsMaterialized request caller ms h =
    let (cs, mapped, rest) = bind-ok (candidate_map request.source_candidates) _ h in
    let (sel, selected, built) =
      bind-ok (select_candidates request.selector_mode request.portfolio_ids cs) _ rest in
    let (unique, source) = candidate_map-ok request.source_candidates cs mapped in
    let (all, distinct, some_chosen) =
      select_candidates-Selection request.selector_mode request.portfolio_ids cs sel unique
        selected in
    let (bounded, each) = within_bound request.max_batch_size sel caller ms built in
    let (made, admitted) = materialize_each-ok sel caller ms each in
    record {
      chosen = sel;
      in_order = made;
      from_source = subst (λ l. All (λ c. In c l) sel) source all;
      admitted = admitted;
      distinct = distinct;
      not_empty = some_chosen;
      bounded = bounded;
    }
