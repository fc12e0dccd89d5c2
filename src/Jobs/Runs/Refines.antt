-- ===== src/Jobs/Runs/Refines.antt =====
-- The work queue as a state machine for one work item: it waits, is held under a token, or is over.
-- Any run of the ledger moves each item by its steps.
use lotus_report.Prelude.{
  inl, inr, [], ◌∷◌, leb, map, subst, sym, ◌∙◌, Bool-cases, In, In-All, All-refl, eq_iff, ℕ, ◌+◌,
  ◌-◌, ◌<◌, ◌≡◌, String, true, Option, some, List, arith,
}
use lotus_report.Clock.{Time}
use lotus_report.Jobs.Tables.{WorkStatus, work_is, WorkItemRow, Db}
use lotus_report.Jobs.Work.{ReportJobWorkRetryPolicy, decide_report_job_work_failure}
use lotus_report.Jobs.Work.Failure.{retry_or_fail}
use lotus_report.Jobs.Work.Claims.{is_queued}
use lotus_report.Jobs.Work.Stock.{is_over}
use lotus_report.Jobs.Work.Closed.{IsClosed}
use lotus_report.Jobs.Work.Budget.{IsWithin, IsWithin-IsClosed}
use lotus_report.Jobs.Runs.{Command, run}
use lotus_report.Jobs.Runs.Sound.{run-keeps, Consistent}
use lotus_report.Sql.{fetchone, All-of_In, All-fetchone}
use lotus_report.Jobs.Work.Custody.{is_work}
use lotus_report.Jobs.Work.Invariant.{IsConsistent}
use lotus_report.Jobs.Work.Operations.{the_item}

-- The attempts are those that were charged to the item.
pub data Phase : Type 0 where
  waiting : ℕ → Phase
  held : Option String → ℕ → Phase
  over : Phase

-- A claim charges an attempt, and only the holder who defers gives it back. Nothing leaves `over`.
pub data Step (limit : ℕ) : Phase → Phase → Type 0 where
  takes : (token : String) (n : ℕ) → n < limit → Step limit (waiting n) (held (some token) (n + 1))
  defers : (token : Option String) (n : ℕ) → Step limit (held token n) (waiting (n - 1))
  retries : (token : Option String) (n : ℕ) → n < limit → Step limit (held token n) (waiting n)
  ends : (p : Phase) → Step limit p over

pub data Steps (limit : ℕ) (p : Phase) : Phase → Type 0 where
  stay : Steps limit p p
  go : {q r : Phase} → Steps limit p q → Step limit q r → Steps limit p r

-- What a row of `report_job_work_item` says of its item
abbrev pub phase : WorkItemRow → Phase
phase w = elim w.status [
  | WorkStatus.pending ↦ waiting w.attempt_count
  | WorkStatus.retry_pending ↦ waiting w.attempt_count
  | WorkStatus.leased ↦ held w.lease_token w.attempt_count
  | WorkStatus.completed ↦ over
  | WorkStatus.failed ↦ over
]

phase_over : (w : WorkItemRow) → is_over w ≡ true → phase w ≡ over
phase_over w e = ground arith

phase_waiting : (w : WorkItemRow) → is_queued w ≡ true → phase w ≡ waiting w.attempt_count
phase_waiting w e = ground arith

phase_held :
    (w : WorkItemRow)
    → work_is w.status WorkStatus.leased ≡ true
    → phase w ≡ held w.lease_token w.attempt_count
phase_held w e = ground arith

module _ (policy : ReportJobWorkRetryPolicy) (i : String) (start : Phase) where
  -- The item `i` was reached from `start`.
  abbrev Follows : WorkItemRow → Type 0
  Follows w =
      IsWithin policy.max_attempts w
      × (w.work_item_id ≡ i → Steps policy.max_attempts start (phase w))

  ends-Follows :
      (p q : Phase)
      → q ≡ over
      → Steps policy.max_attempts start p
      → Steps policy.max_attempts start q
  ends-Follows p q e before =
      subst (λ r. Steps policy.max_attempts start r) (sym e) (go before (ends p))

  retried :
      (w : WorkItemRow) (now failed_at due : Time) (category summary : String)
      → work_is w.status WorkStatus.leased ≡ true
      → Step policy.max_attempts (phase w) (
          phase (
            retry_or_fail
              (decide_report_job_work_failure w.attempt_count failed_at policy)
              due
              category
              summary
              now
              w))
  unfolding decide_report_job_work_failure
  retried w now failed_at due category summary leased =
      elim (Bool-cases (leb policy.max_attempts w.attempt_count)) [
        | inl e ↦ rw e (ends (phase w))
        | inr e ↦ rw e (
            subst (λ p. Step policy.max_attempts p (waiting w.attempt_count))
              (sym (phase_held w leased)) (retries w.lease_token w.attempt_count (ground arith)))
      ]

  Follows-IsClosed : IsClosed policy Follows
  Follows-IsClosed =
      let within = IsWithin-IsClosed policy in
      record {
        over = λ w e free.
            (within.over w e free, λ own. ends-Follows start (phase w) (phase_over w e) stay);
        defers = λ w now due token reason h p. (
          within.defers w now due token reason h.0 p,
          λ own.
              go
                (subst (λ q. Steps policy.max_attempts start q) (phase_held w (ground arith))
                  (h.1 own))
                (defers w.lease_token w.attempt_count),
        );
        takes = λ w now worker token n h p. (
          within.takes w now worker token n h.0 p,
          λ own.
              go (subst (λ q. Steps policy.max_attempts start q) (phase_waiting w p) (h.1 own))
                (takes token w.attempt_count (h.0.queued p)),
        );
        retries = λ w now failed_at due category summary h p. (
          within.retries w now failed_at due category summary h.0 p,
          λ own. go (h.1 own) (retried w now failed_at due category summary p),
        );
      }

found_again :
    (i : String) (before after : List WorkItemRow) (w : WorkItemRow)
    → map (λ (x : WorkItemRow). x.work_item_id) after
      ≡ map (λ (x : WorkItemRow). x.work_item_id) before
    → fetchone (is_work i) before ≡ some w
    → (x : WorkItemRow) × (fetchone (is_work i) after ≡ some x)
unfolding fetchone
found_again i [] after w e h = absurd (ground arith)
found_again i (b ∷ bs) [] w e h = absurd (ground arith)
found_again i (b ∷ bs) (a ∷ rest) w e h = elim (Bool-cases (is_work i b)) [
  | inl own ↦ (a, ground arith)
  | inr other ↦
      let (x, at) = found_again i bs rest w (ground arith) (ground arith) in (x, ground arith)
]

module _ (policy : ReportJobWorkRetryPolicy) (ids : List String) (cs : List Command) (db : Db)
    (i : String) (w : WorkItemRow) (k : Consistent ids policy db)
    (found : fetchone (is_work i) db.work_items ≡ some w) where
  follows : IsConsistent ids (Follows policy i (phase w)) db
  follows = record {
    stocked = record {
      stored = k.stocked.stored;
      rows = All-of_In db.work_items (λ x m. (
        In-All _ db.work_items k.stocked.rows x m,
        λ own.
            subst (λ (y : WorkItemRow). Steps policy.max_attempts (phase w) (phase y))
              (same x m own) stay,
      ));
      work_ids = k.stocked.work_ids;
    };
    audited = k.audited;
  }
    where
      same : (x : WorkItemRow) → In x db.work_items → x.work_item_id ≡ i → w ≡ x
      same x m own =
          let (here, mine) =
            All-fetchone (λ y. In y db.work_items) (is_work i) db.work_items
              (All-refl db.work_items) found in
          the_item i db.work_items w x k.stocked.work_ids here m mine
            ((eq_iff x.work_item_id i).1 own)

  -- Under the conditions of the budget, any interleaving of operations on jobs and on work items moves
  -- every stored item by steps of the abstract machine: it stays stored; a claim takes it only while it
  -- waits with attempts left and charges one; it waits again only from a lease, with the attempt given
  -- back when its holder deferred, or with attempts left when it failed or expired; and it may end.
  pub run-refines :
      (x : WorkItemRow) × (fetchone (is_work i) (run policy cs db).work_items ≡ some x)
      × Steps policy.max_attempts (phase w) (phase x)
  run-refines =
      let after =
        run-keeps ids policy (Follows policy i (phase w)) (Follows-IsClosed policy i (phase w)) cs
          db follows in
      let (x, e) =
        found_again i db.work_items (run policy cs db).work_items w
          (after.stocked.stored ∙ sym k.stocked.stored) found in
      let (r, own) =
        All-fetchone (Follows policy i (phase w)) (is_work i) (run policy cs db).work_items
          after.stocked.rows e in
      (x, e, r.1 ((eq_iff x.work_item_id i).0 own))
