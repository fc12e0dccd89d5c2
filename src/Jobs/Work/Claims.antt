-- ===== src/Jobs/Work/Claims.antt =====
-- `claim_work_items` and the recovery of expired leases (src/app/reporting_jobs/ledger.py).
use lotus_report.Prelude.{
  ℕ, ◌+◌, String, Bool, true, false, ◌&&◌, ◌||◌, Option, none, some, List, [], ◌∷◌, ◌++◌, zero, suc,
  take, ◌==◌, if◌then◌else◌,
}
use lotus_report.Sql.{
  Result, Tx, ok, err, return, select, update, rowcount, fetchone, sort_rows, connect, ◌>>=◌, ◌>>◌,
}
use lotus_report.Clock.{Time, seconds, before, not_after}
use lotus_report.Text.{text_le}
use lotus_report.Jobs.Tables.{WorkStatus, work_is, WorkItemRow, Db, JobError}
use lotus_report.Jobs.Custody.{Context}
use lotus_report.Jobs.Work.{
  ReportJobWorkRetryPolicy, ReportJobWorkFailureDecision, decide_report_job_work_failure,
}
use lotus_report.Jobs.Work.Custody.{is_work, claimed}
use lotus_report.Jobs.Work.Queue.{holds_token}
use lotus_report.Jobs.Work.Failure.{terminalize, owner_or_worker, retry_or_fail}

-- lease_expires_at <= ?
abbrev pub work_expired : Time → WorkItemRow → Bool
work_expired now w =
    work_is w.status WorkStatus.leased
    && (elim w.lease_expires_at [ none ↦ false | some t ↦ not_after t now ])

abbrev pub same_text : Option String → Option String → Bool
same_text none b = false
same_text (some a) b = holds_token a b

-- The WHERE clause of the recovery of one expired lease
abbrev pub expired_fence : WorkItemRow → Time → WorkItemRow → Bool
expired_fence expired now w =
    is_work expired.work_item_id w
    && same_text expired.lease_token w.lease_token
    && work_expired now w

-- ORDER BY lease_expires_at ASC, work_item_id ASC
abbrev pub expires_first : WorkItemRow → WorkItemRow → Bool
expires_first a b = elim a.lease_expires_at [
  | none ↦ true
  | some s ↦ elim b.lease_expires_at [
    | none ↦ false
    | some t ↦ before s t || s == t && text_le a.work_item_id b.work_item_id
  ]
]

abbrev pub expiry_summary : String
expiry_summary = "Report job work lease expired before completion."

unfoldable pub recover_expired :
    WorkItemRow → ReportJobWorkFailureDecision → Time → Context → Tx Db JobError (Unit {0})
unfolding terminalize
recover_expired expired decision now ctx db =
    if rowcount (expired_fence expired now) db.work_items == 1
    then (if work_is decision.status WorkStatus.failed
          then terminalize expired.work_item_id (owner_or_worker expired.lease_owner) "timeout"
              "Report job work lease expired after the final permitted attempt." ctx
          else return tt)
        (record db {
          work_items =
              update (expired_fence expired now)
                (retry_or_fail decision decision.available_at "expired_work_lease" expiry_summary
                  now)
                db.work_items;
        })
    else err JobError.report_job_work_lease_not_owned

abbrev pub expiry_decision :
    WorkItemRow → Time → ReportJobWorkRetryPolicy → ReportJobWorkFailureDecision
expiry_decision expired now policy =
    decide_report_job_work_failure expired.attempt_count
      (elim expired.lease_expires_at [ none ↦ now | some t ↦ t ]) policy

unfoldable pub recover_each :
    List WorkItemRow
    → ReportJobWorkRetryPolicy
    → Time
    → (String → Context)
    → Tx Db JobError (Unit {0})
unfolding recover_expired
recover_each [] policy now draws = return tt
recover_each (w ∷ ws) policy now draws = do
  recover_expired w (expiry_decision w now policy) now (draws w.work_item_id)
  recover_each ws policy now draws

-- `_recover_expired_work_items`, without its two counts for telemetry
unfoldable pub recover_expired_work_items :
    ReportJobWorkRetryPolicy → Time → (String → Context) → Tx Db JobError (Unit {0})
unfolding recover_each
recover_expired_work_items policy now draws db =
    recover_each (take 5 (sort_rows expires_first (select (work_expired now) db.work_items))) policy
      now draws db

abbrev pub is_queued : WorkItemRow → Bool
is_queued w = work_is w.status WorkStatus.pending || work_is w.status WorkStatus.retry_pending

abbrev pub claimable : Time → WorkItemRow → Bool
claimable now w = is_queued w && not_after w.available_at now

-- ORDER BY available_at ASC, created_at ASC, work_item_id ASC
abbrev pub available_first : WorkItemRow → WorkItemRow → Bool
available_first a b =
    before a.available_at b.available_at
    || a.available_at == b.available_at
      && (before a.created_at b.created_at
          || a.created_at == b.created_at && text_le a.work_item_id b.work_item_id)

abbrev pub take_lease : String → String → ℕ → Time → WorkItemRow → WorkItemRow
take_lease worker_id token lease_seconds now w = record w {
  status = WorkStatus.leased;
  attempt_count = w.attempt_count + 1;
  lease_owner = some worker_id;
  lease_token = some token;
  lease_acquired_at = some now;
  lease_expires_at = some (now + seconds lease_seconds);
  updated_at = now;
}

abbrev pub claim_row : String → WorkItemRow → Bool
claim_row work_id w = is_work work_id w && is_queued w

-- The claimed row, if it holds the fresh token
abbrev pub keep_claimed :
    String → ℕ → Context → Option WorkItemRow → Tx Db JobError (List WorkItemRow)
keep_claimed token lease_seconds ctx none = return []
keep_claimed token lease_seconds ctx (some w) =
    if holds_token token w.lease_token
    then (do claimed w token lease_seconds ctx; return (w ∷ []))
    else return []

unfoldable pub claim_one :
    String → String → ℕ → Time → Context → String → Tx Db JobError (List WorkItemRow)
unfolding claimed
claim_one worker_id token lease_seconds now ctx work_id db =
    let items =
      update (claim_row work_id) (take_lease worker_id token lease_seconds now) db.work_items in
    keep_claimed token lease_seconds ctx (fetchone (is_work work_id) items)
      (record db { work_items = items })

unfoldable pub claim_each :
    List WorkItemRow
    → String
    → (String → String)
    → ℕ
    → Time
    → (String → Context)
    → Tx Db JobError (List WorkItemRow)
unfolding claim_one
claim_each [] worker_id tokens lease_seconds now draws = return []
claim_each (w ∷ ws) worker_id tokens lease_seconds now draws = do
  first ←
      claim_one worker_id (tokens w.work_item_id) lease_seconds now (draws w.work_item_id)
        w.work_item_id
  rest ← claim_each ws worker_id tokens lease_seconds now draws
  return (first ++ rest)

abbrev pub to_claim : ℕ → Time → Db → List WorkItemRow
to_claim limit now db =
    take limit (sort_rows available_first (select (claimable now) db.work_items))

-- `tokens` draws the fresh lease token of a work item, `rlease_` and a random UUID; `draws` what its
-- recovery and its claim read from outside.
unfoldable pub claim_work_items :
    String
    → ℕ
    → ℕ
    → ReportJobWorkRetryPolicy
    → Time
    → (String → String)
    → (String → Context)
    → Db
    → Result JobError (List WorkItemRow) × Db
unfolding recover_expired_work_items claim_each
claim_work_items worker_id zero lease_seconds policy now tokens draws = λ db. (ok [], db)
claim_work_items worker_id (suc limit) lease_seconds policy now tokens draws = connect do
  recover_expired_work_items policy now draws
  λ d. claim_each (to_claim (suc limit) now d) worker_id tokens lease_seconds now draws d
