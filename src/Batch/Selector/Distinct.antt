-- ===== src/Batch/Selector/Distinct.antt =====
-- Sorting and selecting candidates keeps their ids, and keeps them distinct.
use lotus_report.Prelude.{
  suc, String, ◌≡◌, refl, ap, inl, inr, Bool, true, false, ◌||◌, List, [], ◌∷◌, arith, All, length,
  str_eq, eq_iff, Bool-cases,
}
use lotus_report.Sql.{select, is_in}
use lotus_report.Text.{text_le}
use lotus_report.Batch.Selector.{
  PortfolioBatchCandidate, has_duplicate, candidate_ids, insert_candidate, sort_candidates,
}

insert-All :
    (P : PortfolioBatchCandidate → Type 0) (c : PortfolioBatchCandidate)
    (ds : List PortfolioBatchCandidate)
    → P c
    → All P ds
    → All P (insert_candidate c ds)
unfolding insert_candidate
insert-All P c [] h hs = (h, tt)
insert-All P c (d ∷ ds) h hs = elim (Bool-cases (text_le c.portfolio_id d.portfolio_id)) [
  | inl e ↦ rw e (h, hs)
  | inr e ↦ rw e (hs.0, insert-All P c ds h hs.1)
]

pub sort-All :
    (P : PortfolioBatchCandidate → Type 0) (cs : List PortfolioBatchCandidate)
    → All P cs
    → All P (sort_candidates cs)
unfolding sort_candidates
sort-All P [] h = tt
sort-All P (c ∷ cs) h = insert-All P c (sort_candidates cs) h.0 (sort-All P cs h.1)

is_in-insert :
    (k : String) (c : PortfolioBatchCandidate) (ds : List PortfolioBatchCandidate)
    → is_in (candidate_ids (insert_candidate c ds)) k
      ≡ (str_eq k c.portfolio_id || is_in (candidate_ids ds) k)
unfolding insert_candidate is_in
is_in-insert k c [] = refl
is_in-insert k c (d ∷ ds) = ground (arith, is_in-insert k c ds)

has_duplicate-insert :
    (c : PortfolioBatchCandidate) (ds : List PortfolioBatchCandidate)
    → has_duplicate (candidate_ids (insert_candidate c ds))
      ≡ (is_in (candidate_ids ds) c.portfolio_id || has_duplicate (candidate_ids ds))
unfolding insert_candidate has_duplicate is_in
has_duplicate-insert c [] = refl
has_duplicate-insert c (d ∷ ds) = ground (
  arith,
  has_duplicate-insert c ds,
  is_in-insert d.portfolio_id c ds,
  eq_iff c.portfolio_id d.portfolio_id,
  eq_iff d.portfolio_id c.portfolio_id,
)

is_in-sort :
    (k : String) (cs : List PortfolioBatchCandidate)
    → is_in (candidate_ids (sort_candidates cs)) k ≡ is_in (candidate_ids cs) k
unfolding sort_candidates is_in
is_in-sort k [] = refl
is_in-sort k (c ∷ cs) = ground (arith, is_in-insert k c (sort_candidates cs), is_in-sort k cs)

pub has_duplicate-sort :
    (cs : List PortfolioBatchCandidate)
    → has_duplicate (candidate_ids (sort_candidates cs)) ≡ has_duplicate (candidate_ids cs)
unfolding sort_candidates has_duplicate
has_duplicate-sort [] = refl
has_duplicate-sort (c ∷ cs) = ground (
  arith,
  has_duplicate-insert c (sort_candidates cs),
  has_duplicate-sort cs,
  is_in-sort c.portfolio_id cs,
)

is_in-select :
    (p : PortfolioBatchCandidate → Bool) (k : String) (cs : List PortfolioBatchCandidate)
    → is_in (candidate_ids (select p cs)) k ≡ true
    → is_in (candidate_ids cs) k ≡ true
unfolding select is_in
is_in-select p k [] h = h
is_in-select p k (c ∷ cs) h = ground (arith, is_in-select p k cs)

pub has_duplicate-select :
    (p : PortfolioBatchCandidate → Bool) (cs : List PortfolioBatchCandidate)
    → has_duplicate (candidate_ids cs) ≡ false
    → has_duplicate (candidate_ids (select p cs)) ≡ false
unfolding select has_duplicate
has_duplicate-select p [] h = refl
has_duplicate-select p (c ∷ cs) h =
    ground (arith, is_in-select p c.portfolio_id cs, has_duplicate-select p cs)

pub length-candidate_ids :
    (cs : List PortfolioBatchCandidate) → length (candidate_ids cs) ≡ length cs
length-candidate_ids [] = refl
length-candidate_ids (c ∷ cs) = ap suc (length-candidate_ids cs)
