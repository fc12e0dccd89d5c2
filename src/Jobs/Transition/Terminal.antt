-- ===== src/Jobs/Transition/Terminal.antt =====
-- What one operation can do to one job, what ends a job for good, and what custody holds back.
use mathlib.Core.Option
use lotus_report.Prelude.{
  some_injective, String, Bool, true, false, ◌≡◌, refl, sym, inl, inr, some, List, [], ◌∷◌, arith,
  Bool-cases, ap, ◌∙◌, if◌then◌else◌, eq_iff, str_eq,
}
use lotus_report.Sql.{update, fetchone, fetchone-true, fetchone-update}
use lotus_report.Jobs.Status.{ReportJobStatus, one_of}
use lotus_report.Jobs.Tables.{JobRow, Db, is_job}
use lotus_report.Jobs.Custody.{Context, at_epoch, parked_job}
use lotus_report.Jobs.Transition.Marks.{Operation, apply, run}
use lotus_report.Jobs.Transition.Effect.{apply-Effect}
use lotus_report.Jobs.Transition.Move.{legal, guarded, IsMove, IsPark, same, parked, moved}

-- The job keeps its status and its document, or it takes one edge that its status and its custody
-- allow.
pub data Outcome (row after : JobRow) : Type 0 where
  kept :
      after.status ≡ row.status
      → after.archive_document_id ≡ row.archive_document_id
      → Outcome row after
  stepped :
      legal row.status after.status ≡ true → guarded row after.status ≡ true → Outcome row after

-- The row of a job after an operation, and what became of it.
pub record IsFollowed (job_id : String) (row : JobRow) (db : Db) : Type 0 where
  pub next : JobRow
  pub found : fetchone (is_job job_id) db.jobs ≡ some next
  pub outcome : Outcome row next

module _ (job_id : String) (row : JobRow) (db : Db)
    (found : fetchone (is_job job_id) db.jobs ≡ some row) where
  -- The row after an UPDATE that keeps ids.
  after_update :
      (p : JobRow → Bool) (f : JobRow → JobRow)
      → ((r : JobRow) → (f r).report_job_id ≡ r.report_job_id)
      → fetchone (is_job job_id) (update p f db.jobs) ≡ some (if p row then f row else row)
  after_update p f keeps =
      fetchone-update (is_job job_id) p f db.jobs (λ r. ap (λ i. str_eq i job_id) (keeps r))
      ∙ ap (λ o. Option.map (λ r. if p r then f r else r) o) found

  parked-IsFollowed :
      (other : String) (after : Db) → IsPark other db after → IsFollowed job_id row after
  parked-IsFollowed other after k = record {
    next = if at_epoch k.row row then parked_job k.reason row else row;
    found = rw k.jobs (after_update (at_epoch k.row) (parked_job k.reason) (λ r. refl));
    outcome = elim (Bool-cases (at_epoch k.row row)) [
      | inl e ↦ rw e (kept refl refl)
      | inr e ↦ rw e (kept refl refl)
    ];
  }

  moved-IsFollowed :
      (other : String) (after : Db) → IsMove other db after → IsFollowed job_id row after
  moved-IsFollowed other after k = record {
    next = if is_job other row then k.f row else row;
    found = rw k.jobs (after_update (is_job other) k.f k.keeps_id);
    outcome = elim (Bool-cases (is_job other row)) [
      | inl e ↦
          rw e (stepped (rw (k.to row, ← here e) k.lawful) (rw (k.to row, ← here e) k.custody))
      | inr e ↦ rw e (kept refl refl)
    ];
  }
    where
      here : is_job other row ≡ true → k.row ≡ row
      here e =
          let own = (eq_iff row.report_job_id other).0 e in
          let mine =
            (eq_iff row.report_job_id job_id).0 (fetchone-true (is_job job_id) db.jobs row found) in
          some_injective
            (sym k.found ∙ ap (λ i. fetchone (is_job i) db.jobs) (sym own ∙ mine) ∙ found)

  -- After any operation on any job, by any caller, a stored job is still stored: with the status and
  -- the archived document that it had, or one step on, along an edge of the lifecycle table or by a
  -- cancellation that its status allows; and where custody protects it, that step goes neither to
  -- failed, cancelled or archived, nor to rendering, completed or archiving.
  pub apply-IsFollowed :
      (other : String) (op : Operation) (ctx : Context)
      → IsFollowed job_id row (apply other op ctx db)
  apply-IsFollowed other op ctx = elim (apply-Effect other op ctx db) [
    | same e ↦ record { next = row; found = rw e found; outcome = kept refl refl }
    | parked k ↦ parked-IsFollowed other _ k
    | moved k ↦ moved-IsFollowed other _ k
  ]

abbrev pub terminal : ReportJobStatus → Bool
terminal s =
    one_of
      (ReportJobStatus.archived ∷ ReportJobStatus.completed_with_warnings
        ∷ ReportJobStatus.cancelled ∷ [])
      s

no_edge : (s t : ReportJobStatus) → terminal s ≡ true → legal s t ≡ false
no_edge s t h = ground arith

-- A job that is archived, completed with warnings or cancelled keeps that status, and the archived
-- document that it names, through any sequence of operations on any jobs.
pub run-terminal :
    (ops : List (String × Operation × Context)) (job_id : String) (row : JobRow) (db : Db)
    → fetchone (is_job job_id) db.jobs ≡ some row
    → terminal row.status ≡ true
    → (next : JobRow) × (fetchone (is_job job_id) (run ops db).jobs ≡ some next)
      × (next.status ≡ row.status)
      × (next.archive_document_id ≡ row.archive_document_id)
unfolding run
run-terminal [] job_id row db found h = (row, found, refl, refl)
run-terminal ((other, op, ctx) ∷ ops) job_id row db found h =
    let k = apply-IsFollowed job_id row db found other op ctx in
    elim k.outcome [
      | kept s d ↦
          let (next, found', s', d') =
            run-terminal ops job_id k.next (apply other op ctx db) k.found (rw s h) in
          (next, found', s' ∙ s, d' ∙ d)
      | stepped l g ↦ absurd (ground (arith, l, no_edge row.status k.next.status h))
    ]
