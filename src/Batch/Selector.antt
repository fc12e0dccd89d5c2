-- ===== src/Batch/Selector.antt =====
-- src/app/report_batch_orchestrator/selector.py: the portfolios of a batch request, each of them active
-- and in the caller's tenant and region.

pub mod Lookup
pub mod Distinct
pub mod Scope
use lotus_report.Prelude.{
  ℕ, String, Bool, true, false, not, ◌||◌, Option, none, some, List, [], ◌∷◌, map, length, ltb,
  if◌then◌else◌, str_eq,
}
use lotus_report.Sql.{Result, ok, err, select, fetchone, is_in}
use lotus_report.Text.{strip, text_le}

pub data BatchSelectorMode : Type 0 where
  explicit_portfolio_list selected_subset all_active_portfolios batch_manifest : BatchSelectorMode

pub record PortfolioBatchCandidate : Type 0 where
  pub portfolio_id : String
  pub tenant_id : String
  pub region : String
  pub active : Bool
  pub selected : Bool
  pub source_system : String
  pub source_object : String

-- `as_of_date` and `options` as the texts that `isoformat` and `canonical_json` make of them.
pub record BatchCreateRequest : Type 0 where
  pub selector_mode : BatchSelectorMode
  pub portfolio_ids : List String
  pub source_candidates : List PortfolioBatchCandidate
  pub as_of_date : String
  pub requested_output_formats : List String
  pub reporting_currency : Option String
  pub options : String
  pub max_batch_size : ℕ

pub record ReportCallerContext : Type 0 where
  pub tenant_id : String
  pub region : String
  pub booking_center_code : Option String
  pub trigger_type : String
  pub triggered_by : String
  pub caller_application : String
  pub role : Option String
  pub correlation_id : String
  pub trace_id : String

pub record MaterializedPortfolio : Type 0 where
  pub portfolio_id : String
  pub source_system : String
  pub source_object : String

-- BatchSelectorValidationError
pub data SelectorError : Type 0 where
  empty_batch_selector batch_size_exceeded duplicate_source_portfolio : SelectorError
  duplicate_requested_portfolio portfolio_not_found portfolio_tenant_mismatch : SelectorError
  portfolio_region_mismatch inactive_portfolio : SelectorError

infixl 5 ◌>>=◌
abbrev pub ◌>>=◌ {ℓ κ} :
    {A : Type ℓ} {B : Type κ}
    → Result SelectorError A
    → (A → Result SelectorError B)
    → Result SelectorError B
ok a >>= f = f a
err e >>= f = err e

-- Some value stands in the list twice.
unfoldable pub has_duplicate : List String → Bool
has_duplicate [] = false
has_duplicate (k ∷ ks) = is_in ks k || has_duplicate ks

abbrev pub candidate_ids : List PortfolioBatchCandidate → List String
candidate_ids = map (λ c. c.portfolio_id)

-- `_candidate_map`: without duplicates the dictionary holds the candidate of each id.
candidate_map : List PortfolioBatchCandidate → Result SelectorError (List PortfolioBatchCandidate)
unfolding has_duplicate
candidate_map candidates =
    if has_duplicate (candidate_ids candidates)
    then err SelectorError.duplicate_source_portfolio
    else ok candidates

-- `_explicit_portfolio_ids`
explicit_portfolio_ids : List String → Result SelectorError (List String)
unfolding has_duplicate
explicit_portfolio_ids portfolio_ids =
    let normalized = select (λ k. not (str_eq k "")) (map strip portfolio_ids) in
    elim normalized [
      | [] ↦ err SelectorError.empty_batch_selector
      | k ∷ ks ↦
          if has_duplicate (k ∷ ks)
          then err SelectorError.duplicate_requested_portfolio
          else ok (k ∷ ks)
    ]

-- `_candidate_for_id`
candidate_for_id :
    List PortfolioBatchCandidate → String → Result SelectorError PortfolioBatchCandidate
candidate_for_id candidates portfolio_id =
    elim (fetchone (λ c. str_eq c.portfolio_id portfolio_id) candidates) [
      | none ↦ err SelectorError.portfolio_not_found
      | some c ↦ ok c
    ]

pub candidates_for_ids :
    List PortfolioBatchCandidate → List String → Result SelectorError (List PortfolioBatchCandidate)
unfolding candidate_for_id
candidates_for_ids candidates [] = ok []
candidates_for_ids candidates (k ∷ ks) = do
  c ← candidate_for_id candidates k
  cs ← candidates_for_ids candidates ks
  ok (c ∷ cs)

insert_candidate :
    PortfolioBatchCandidate → List PortfolioBatchCandidate → List PortfolioBatchCandidate
insert_candidate c [] = c ∷ []
insert_candidate c (d ∷ ds) =
    if text_le c.portfolio_id d.portfolio_id then c ∷ d ∷ ds else d ∷ insert_candidate c ds

-- sorted(..., key=lambda candidate: candidate.portfolio_id)
pub sort_candidates : List PortfolioBatchCandidate → List PortfolioBatchCandidate
unfolding insert_candidate
sort_candidates [] = []
sort_candidates (c ∷ cs) = insert_candidate c (sort_candidates cs)

-- `if not selected: raise`
some_selected : List PortfolioBatchCandidate → Result SelectorError (List PortfolioBatchCandidate)
some_selected [] = err SelectorError.empty_batch_selector
some_selected (c ∷ cs) = ok (c ∷ cs)

select_candidates :
    BatchSelectorMode
    → List String
    → List PortfolioBatchCandidate
    → Result SelectorError (List PortfolioBatchCandidate)
unfolding explicit_portfolio_ids candidates_for_ids sort_candidates some_selected
select_candidates BatchSelectorMode.explicit_portfolio_list ids candidates = do
  selected_ids ← explicit_portfolio_ids ids
  candidates_for_ids candidates selected_ids
select_candidates BatchSelectorMode.selected_subset ids candidates =
    some_selected (sort_candidates (select (λ c. c.selected) candidates))
select_candidates BatchSelectorMode.all_active_portfolios ids candidates =
    some_selected (sort_candidates candidates)
select_candidates BatchSelectorMode.batch_manifest ids candidates = do
  selected_ids ← explicit_portfolio_ids ids
  candidates_for_ids candidates selected_ids

-- `_validate_candidate`
validate_candidate : PortfolioBatchCandidate → ReportCallerContext → Result SelectorError (Unit {0})
validate_candidate candidate caller =
    if not (str_eq candidate.tenant_id caller.tenant_id)
    then err SelectorError.portfolio_tenant_mismatch
    else if not (str_eq candidate.region caller.region)
    then err SelectorError.portfolio_region_mismatch
    else if not candidate.active
    then err SelectorError.inactive_portfolio
    else ok tt

abbrev pub materialized_of : PortfolioBatchCandidate → MaterializedPortfolio
materialized_of c = record {
  portfolio_id = c.portfolio_id;
  source_system = c.source_system;
  source_object = c.source_object;
}

-- The loop of `materialize_portfolios`; the first candidate that is refused ends it.
pub materialize_each :
    List PortfolioBatchCandidate
    → ReportCallerContext
    → Result SelectorError (List MaterializedPortfolio)
unfolding validate_candidate
materialize_each [] caller = ok []
materialize_each (c ∷ cs) caller = do
  admitted ← validate_candidate c caller
  ms ← materialize_each cs caller
  ok (materialized_of c ∷ ms)

unfoldable pub materialize_portfolios :
    BatchCreateRequest → ReportCallerContext → Result SelectorError (List MaterializedPortfolio)
unfolding candidate_map select_candidates materialize_each
materialize_portfolios request caller = do
  candidates ← candidate_map request.source_candidates
  selected ← select_candidates request.selector_mode request.portfolio_ids candidates
  if ltb request.max_batch_size (length selected)
      then err SelectorError.batch_size_exceeded
      else materialize_each selected caller
