-- ===== src/Jobs/Ports/Budgeted.antt =====
-- What a sequence of calls of the custody ports spends: every granted reservation is counted, and the
-- counters stay within the budgets of the job.
use lotus_report.Prelude.{
  ap, subst, ◌∙◌, sym, ℕ, ◌+◌, ◌≡◌, String, Bool, true, false, refl, inl, inr, Option, some, List,
  [], ◌∷◌, arith, Bool-cases, str_eq, eq_iff, if◌then◌else◌,
}
use lotus_report.Sql.{Result, Result-cases, fetchone, Tx, ok, err, connect, returned-connect, ◌>>=◌}
use lotus_report.Clock.{Time}
use lotus_report.Jobs.Tables.{JobRow, WorkItemRow, Db, JobError, is_job}
use lotus_report.Jobs.Custody.{Context, park}
use lotus_report.Jobs.Ports.Fence.{authorized-IsFenced}
use lotus_report.Jobs.Ports.Budgets.{used, used_of, used_in, park-Quiet}
use lotus_report.Jobs.Ports.Charged.{one_of_kind}
use lotus_report.Jobs.Ports.Reserved.{reserve-IsGranted}
use lotus_report.Jobs.Ports.{
  Bindings, authorize, CustodyLease, PortOperation, operation_name, spend, fenced, reserve,
  postpone, record_owner_due, block, PortCall, reserve_call, due_call, block_call, run_ports,
}
use lotus_report.Jobs.Ports.Quiet.{
  connect-raised, differ, fits, Quiet, IsCounted, Quiet-IsCounted, spend-Quiet, postpone-Quiet,
}

-- How many operations of a kind the answer of one reservation lets its caller do for a job.
abbrev pub grants : PortOperation → String → PortOperation → String → Result JobError Bool → ℕ
grants kind job_id operation j (ok true) = if str_eq job_id j then one_of_kind operation kind else 0
grants kind job_id operation j _ = 0

-- How many operations of a kind the reservations of a run are told to go ahead with, for a job.
unfoldable pub granted : Bindings → PortOperation → String → List PortCall → Db → ℕ
granted bindings kind job_id [] db = 0
granted bindings kind job_id (reserve_call j t r fence op jitter ctx ∷ cs) db =
    grants kind job_id op j (reserve bindings j t r fence op jitter ctx db).0
    + granted bindings kind job_id cs (reserve bindings j t r fence op jitter ctx db).1
granted bindings kind job_id (due_call j t r fence due ctx ∷ cs) db =
    granted bindings kind job_id cs (record_owner_due bindings j t r fence due ctx db).1
granted bindings kind job_id (block_call j t r fence ctx ∷ cs) db =
    granted bindings kind job_id cs (block bindings j t r fence ctx db).1

module _ (kind : PortOperation) (job_id : String) (bindings : Bindings) where
  -- A fenced call is quiet where its body is, and where it raises.
  fenced-Quiet :
      {A : Type 0} (operation j t r : String) (fence : CustodyLease) (now : Time)
      (body : JobRow → Option WorkItemRow → Tx Db JobError A) (db : Db)
      → ((row : JobRow) (work : Option WorkItemRow) (a : A) (db' : Db)
          → (connect (authorize bindings operation j t r >>= λ _. fenced j t r fence now body) db).0
            ≡ ok a
          → body row work db ≡ ok (a, db')
          → Quiet kind job_id db db')
      → Quiet kind job_id db
          (connect (authorize bindings operation j t r >>= λ _. fenced j t r fence now body) db).1
  fenced-Quiet operation j t r fence now body db quiet =
      let call = authorize bindings operation j t r >>= λ _. fenced j t r fence now body in
      elim (Result-cases (connect call db).0) [
        | inl (e, k) ↦ ap (λ x. used_in kind job_id x) (connect-raised call db e k)
        | inr (a, k) ↦
            let f =
              authorized-IsFenced bindings operation j t r fence now body db (connect call db).1 a
                (returned-connect call db a k) in
            quiet f.row f.work a (connect call db).1 k f.ran
      ]

  due-Quiet :
      (j t r : String) (fence : CustodyLease) (due : Time) (ctx : Context) (db : Db)
      → Quiet kind job_id db (record_owner_due bindings j t r fence due ctx db).1
  unfolding record_owner_due
  due-Quiet j t r fence due ctx db =
      fenced-Quiet "record_owner_due" j t r fence ctx.guard_now (postpone due ctx) db
        (λ row work a db' k h. postpone-Quiet kind job_id due ctx row work a db db' h)

  block-Quiet :
      (j t r : String) (fence : CustodyLease) (ctx : Context) (db : Db)
      → Quiet kind job_id db (block bindings j t r fence ctx db).1
  unfolding block
  block-Quiet j t r fence ctx db =
      fenced-Quiet "record_outcome" j t r fence ctx.guard_now
        (λ row work. park "custody_owner_blocked" ctx work row) db
        (λ row work a db' k h.
          park-Quiet "custody_owner_blocked" ctx work row db db' a kind job_id h)

  reserve-Quiet :
      (j t r : String) (fence : CustodyLease) (op : PortOperation) (jitter : ℕ) (ctx : Context)
      (db : Db)
      → ((reserve bindings j t r fence op jitter ctx db).0 ≡ ok true → ⊥)
      → Quiet kind job_id db (reserve bindings j t r fence op jitter ctx db).1
  unfolding reserve
  reserve-Quiet j t r fence op jitter ctx db denied =
      fenced-Quiet (operation_name op) j t r fence ctx.guard_now (spend op jitter ctx) db refused
    where
      refused :
          (row : JobRow) (work : Option WorkItemRow) (a : Bool) (db' : Db)
          → (connect
              (authorize bindings (operation_name op) j t r >>= λ _.
                fenced j t r fence ctx.guard_now (spend op jitter ctx))
              db).0
            ≡ ok a
          → spend op jitter ctx row work db ≡ ok (a, db')
          → Quiet kind job_id db db'
      refused row work true db' k h = absurd (denied k)
      refused row work false db' k h = spend-Quiet kind job_id op jitter ctx row work db db' h

  -- A reservation that is granted for a job: its counter goes up and stays within the budget.
  grant-counts :
      (j t r : String) (fence : CustodyLease) (op : PortOperation) (jitter : ℕ) (ctx : Context)
      (db : Db)
      → (reserve bindings j t r fence op jitter ctx db).0 ≡ ok true
      → IsCounted kind job_id db
          (reserve bindings j t r fence op jitter ctx db).1
          (if str_eq job_id j then one_of_kind op kind else 0)
  grant-counts j t r fence op jitter ctx db k =
      let g = reserve-IsGranted bindings j t r fence op jitter ctx db k in
      elim (Bool-cases (str_eq job_id j)) [
        | inr e ↦ rw e (
            Quiet-IsCounted kind job_id db _
              (ap (λ o. used_of kind o) (g.others job_id (λ q. differ job_id j e q))))
        | inl e ↦
            let same = (eq_iff job_id j).0 e in
            let before : used_in kind job_id db ≡ used kind g.row =
              ap (λ o. used_of kind o)
                (subst (λ i. fetchone (is_job i) db.jobs ≡ some g.row) (sym same) g.found) in
            let now : used_in kind job_id (reserve bindings j t r fence op jitter ctx db).1
                ≡ used kind g.after =
              ap (λ o. used_of kind o)
                (subst
                  (λ i.
                    fetchone (is_job i) (reserve bindings j t r fence op jitter ctx db).1.jobs
                    ≡ some g.after)
                  (sym same) g.stored) in
            rw e (record {
              total = rw (before, now) (g.charged.counted kind ∙ omega arith);
              bounded =
                  rw (before, now)
                    (λ h. rw (g.charged.counted kind) (fits op kind g.row g.budget_left h));
            })
      ]

  reserve-counts :
      (j t r : String) (fence : CustodyLease) (op : PortOperation) (jitter : ℕ) (ctx : Context)
      (db : Db)
      → IsCounted kind job_id db
          (reserve bindings j t r fence op jitter ctx db).1
          (grants kind job_id op j (reserve bindings j t r fence op jitter ctx db).0)
  reserve-counts j t r fence op jitter ctx db =
      by_answer (reserve bindings j t r fence op jitter ctx db).0 refl
    where
      nothing :
          (a : Result JobError Bool)
          → (reserve bindings j t r fence op jitter ctx db).0 ≡ a
          → (a ≡ ok true → ⊥)
          → grants kind job_id op j a ≡ 0
          → IsCounted kind job_id db
              (reserve bindings j t r fence op jitter ctx db).1
              (grants kind job_id op j a)
      nothing a k denied z = rw z (
          Quiet-IsCounted kind job_id db _
            (reserve-Quiet j t r fence op jitter ctx db (λ q. denied (sym k ∙ q))))

      by_answer :
          (a : Result JobError Bool)
          → (reserve bindings j t r fence op jitter ctx db).0 ≡ a
          → IsCounted kind job_id db
              (reserve bindings j t r fence op jitter ctx db).1
              (grants kind job_id op j a)
      by_answer (ok true) k = grant-counts j t r fence op jitter ctx db k
      by_answer (ok false) k = nothing (ok false) k (λ q. ground arith) (ground arith)
      by_answer (err e) k = nothing (err e) k (λ q. ground arith) (ground arith)

  -- In any sequence of calls of the three custody ports, by holders of any leases, whatever each returns
  -- or raises: the counter of a kind of operation of a job goes up by one with every reservation that
  -- is granted for it, and with nothing else, and one that is within its budget stays so. So at most
  -- one initial delivery, three recoveries and twelve polls are granted for a job.
  pub run_ports-IsWithinBudgets :
      (cs : List PortCall) (db : Db)
      → IsCounted kind job_id db (run_ports bindings cs db) (granted bindings kind job_id cs db)
  unfolding run_ports granted
  run_ports-IsWithinBudgets [] db = Quiet-IsCounted kind job_id db db refl
  run_ports-IsWithinBudgets (reserve_call j t r fence op jitter ctx ∷ cs) db =
      let next = (reserve bindings j t r fence op jitter ctx db).1 in
      let here = reserve-counts j t r fence op jitter ctx db in
      let rest = run_ports-IsWithinBudgets cs next in
      record {
        total = omega (arith, here.total, rest.total);
        bounded = λ h. rest.bounded (here.bounded h);
      }
  run_ports-IsWithinBudgets (due_call j t r fence due ctx ∷ cs) db =
      let next = (record_owner_due bindings j t r fence due ctx db).1 in
      let here = Quiet-IsCounted kind job_id db next (due-Quiet j t r fence due ctx db) in
      let rest = run_ports-IsWithinBudgets cs next in
      record {
        total = omega (arith, here.total, rest.total);
        bounded = λ h. rest.bounded (here.bounded h);
      }
  run_ports-IsWithinBudgets (block_call j t r fence ctx ∷ cs) db =
      let next = (block bindings j t r fence ctx db).1 in
      let here = Quiet-IsCounted kind job_id db next (block-Quiet j t r fence ctx db) in
      let rest = run_ports-IsWithinBudgets cs next in
      record {
        total = omega (arith, here.total, rest.total);
        bounded = λ h. rest.bounded (here.bounded h);
      }
