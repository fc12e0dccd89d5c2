-- ===== src/Jobs/Ports/Quiet.antt =====
-- The bodies of the custody ports that leave the counters of a job as they are.
use lotus_report.Prelude.{
  ap, ◌<◌, ◌∙◌, sym, ℕ, ◌+◌, ◌≤◌, ◌≡◌, String, Bool, true, false, refl, inl, inr, Option, arith,
  Bool-cases, str_eq, eq_iff, leb, ltb, ◌||◌, max,
}
use lotus_report.Sql.{bind-ok, step-ok, Tx, ok, err, connect, return, ◌>>◌}
use lotus_report.Clock.{Time, seconds}
use lotus_report.Jobs.Tables.{JobRow, WorkItemRow, Db, JobError}
use lotus_report.Jobs.Custody.{Context, at_epoch, park}
use lotus_report.Jobs.Work.Custody.{execute_update}
use lotus_report.Jobs.Ports.Budgets.{
  budget, used, used_in, execute_update-jobs, update-Quiet, park-Quiet,
}
use lotus_report.Jobs.Ports.Charged.{one_of_kind}
use lotus_report.Jobs.Ports.{
  PortOperation, initial, retry, poll, count_of, limit_of, delay_of, or_now, window_over, is_closed,
  reserved, spend, due_at, postpone, window_length,
}

pub connect-raised :
    {A : Type 0} (body : Tx Db JobError A) (db : Db) (e : JobError)
    → (connect body db).0 ≡ err e
    → (connect body db).1 ≡ db
unfolding connect
connect-raised body db e h = ground arith

pub differ : (a b : String) → str_eq a b ≡ false → a ≡ b → ⊥
differ a b e q = ground (arith, e, (eq_iff a b).1 q)

-- One operation more fits where its own budget is not used up.
pub fits :
    (op kind : PortOperation) (row : JobRow)
    → used op row < budget op
    → used kind row ≤ budget kind
    → used kind row + one_of_kind op kind ≤ budget kind
fits initial initial row l h = omega (arith, l)
fits initial retry row l h = omega (arith, h)
fits initial poll row l h = omega (arith, h)
fits retry initial row l h = omega (arith, h)
fits retry retry row l h = omega (arith, l)
fits retry poll row l h = omega (arith, h)
fits poll initial row l h = omega (arith, h)
fits poll retry row l h = omega (arith, h)
fits poll poll row l h = omega (arith, l)

goes_ahead :
    (m : Tx Db JobError (Unit {0})) (db db' : Db) → (m >> return true) db ≡ ok (false, db') → ⊥
goes_ahead m db db' h = let (u, d, h1, h2) = bind-ok m (λ _. return true) db h in clash d h2
  where
    clash : (d : Db) → return {D = Db} {E = JobError} true d ≡ ok (false, db') → ⊥
    clash d k = ground arith

module _ (kind : PortOperation) (job_id : String) where
  -- The counter of the kind went up by so many, and stays within the budget where it was.
  pub record IsCounted (db db' : Db) (n : ℕ) : Type 0 where
    pub total : used_in kind job_id db' ≡ used_in kind job_id db + n
    pub bounded : used_in kind job_id db ≤ budget kind → used_in kind job_id db' ≤ budget kind

  abbrev pub Quiet : Db → Db → Type 0
  Quiet db db' = used_in kind job_id db' ≡ used_in kind job_id db

  pub Quiet-IsCounted : (db db' : Db) → Quiet db db' → IsCounted db db' 0
  Quiet-IsCounted db db' e = record { total = omega (arith, e); bounded = λ h. rw e h }

  parked_false :
      (reason : String) (ctx : Context) (work : Option WorkItemRow) (row : JobRow) (db db' : Db)
      (a : Bool)
      → (park reason ctx work row >> return false) db ≡ ok (a, db')
      → Quiet db db'
  parked_false reason ctx work row db db' a h =
      let (u, d, h1, h2) = bind-ok (park reason ctx work row) (λ _. return false) db h in
      let same : d ≡ db' = ground arith in
      ap (λ x. used_in kind job_id x) (sym same)
      ∙ park-Quiet reason ctx work row db d u kind job_id h1

  -- A reservation that is refused spends nothing.
  pub spend-Quiet :
      (operation : PortOperation) (jitter : ℕ) (ctx : Context) (row : JobRow)
      (work : Option WorkItemRow) (db db' : Db)
      → spend operation jitter ctx row work db ≡ ok (false, db')
      → Quiet db db'
  unfolding spend
  spend-Quiet operation jitter ctx row work db db' h =
      elim (Bool-cases (
        is_closed row.custody_state
        || ltb ctx.guard_now (or_now row.custody_next_attempt_at ctx.guard_now))) [
          | inl e ↦
              let same : db ≡ db' = ground (arith, e) in ap (λ x. used_in kind job_id x) (sym same)
          | inr e ↦
              elim (Bool-cases (
                leb (limit_of operation) (count_of operation row)
                || window_over row ctx.guard_now)) [
                  | inl x ↦
                      parked_false "custody_retry_budget_exhausted" ctx work row db db' false
                        (ground (arith, e, x))
                  | inr x ↦
                      let f =
                        reserved operation (or_now row.custody_window_started_at ctx.guard_now)
                          (ctx.guard_now + seconds (delay_of operation row jitter)) in
                      let wrote : (execute_update (at_epoch row) f >> return true) db
                          ≡ ok (false, db') =
                        ground (arith, e, x) in
                      absurd (goes_ahead (execute_update (at_epoch row) f) db db' wrote)
                ]
        ]

  due-used : (due : Time) (r : JobRow) → used kind (due_at due r) ≡ used kind r
  due-used due r = by_kind kind
    where
      by_kind : (k : PortOperation) → used k (due_at due r) ≡ used k r
      by_kind initial = refl
      by_kind retry = refl
      by_kind poll = refl

  pub postpone-Quiet :
      (due : Time) (ctx : Context) (row : JobRow) (work : Option WorkItemRow) (a : Bool)
      (db db' : Db)
      → postpone due ctx row work db ≡ ok (a, db')
      → Quiet db db'
  unfolding postpone
  postpone-Quiet due ctx row work a db db' h =
      elim (Bool-cases
        (leb (or_now row.custody_window_started_at ctx.guard_now + window_length) due)) [
          | inl e ↦
              parked_false "custody_owner_schedule_exhausted" ctx work row db db' a
                (ground (arith, e))
          | inr e ↦
              let p : JobRow → Bool = λ r. str_eq r.report_job_id row.report_job_id in
              let f = due_at (max due (or_now row.custody_next_attempt_at ctx.guard_now)) in
              let w = step-ok (execute_update p f) true a db db' (ground (arith, e)) in
              update-Quiet p f db db' kind job_id (execute_update-jobs p f db db' tt w) (λ r. refl)
                (λ r. due-used (max due (or_now row.custody_next_attempt_at ctx.guard_now)) r)
        ]
