-- ===== src/Jobs/Work/Stock.antt =====
-- A predicate on every work item, and the steps of custody and of a transition that keep it.
use lotus_report.Prelude.{
  List, map, false, ◌⊎◌, String, Bool, true, ◌≡◌, refl, inl, inr, Option, none, some, arith, All,
  In, In-All, Bool-cases, Option-cases, is_none, ap, ◌&&◌, ◌||◌, str_eq,
}
use lotus_report.Sql.{
  map-update, All-of_In, All-update_each, ok, update, fetchone, IsUnique, IsUnique-update, Keeps,
  Reads, Keeps-bind, Keeps-if, Keeps-reads, Reads-return, Reads-raise, Reads-if,
}
use lotus_report.Clock.{Time}
use lotus_report.Jobs.Status.{ReportJobStatus, job_is, is_report_job_transition_allowed}
use lotus_report.Jobs.Tables.{WorkStatus, work_is, JobRow, WorkItemRow, Db, is_job, update_jobs}
use lotus_report.Jobs.Custody.{
  Context, lock_pair, park, parked_work, park_job, check_identity, decide_required, guard_required,
  guard_transition,
}
use lotus_report.Jobs.Transition.{
  Change, transition_job, transition_unguarded, apply_change, status_event,
  transition_event_payload,
}
use lotus_report.Jobs.Transition.Guard.{write_status-ok, load-ok, lock_pair-ok}
use lotus_report.Jobs.Work.Custody.{is_work, settled_work, settle_work, execute_update}

-- Nothing is left to do for the item.
abbrev pub is_over : WorkItemRow → Bool
is_over w = work_is w.status WorkStatus.completed || work_is w.status WorkStatus.failed

-- A row that is over and that nobody holds satisfies `R`.
abbrev pub AllowsOver : (WorkItemRow → Type 0) → Type 0
AllowsOver R = (w : WorkItemRow) → is_over w ≡ true → is_none w.lease_token ≡ true → R w

-- The items are those of `ids`, every one satisfies `R`, and no two have one id.
pub record IsStocked (ids : List String) (R : WorkItemRow → Type 0) (db : Db) : Type 0 where
  pub stored : map (λ (w : WorkItemRow). w.work_item_id) db.work_items ≡ ids
  pub rows : All R db.work_items
  pub work_ids : IsUnique (λ (w : WorkItemRow). w.work_item_id) db.work_items

park_work-items :
    (reason : String) (ctx : Context) (work : WorkItemRow) (row : JobRow) (db db' : Db)
    (u : Unit {0})
    → park reason ctx (some work) row db ≡ ok (u, db')
    → (db'.work_items ≡ db.work_items)
      ⊎ (db'.work_items
          ≡ update
              (λ (w : WorkItemRow).
                str_eq w.work_item_id work.work_item_id && work_is w.status work.status)
              (parked_work reason ctx.guard_now)
              db.work_items)
unfolding park park_job update_jobs
park_work-items reason ctx work row db db' u h = ground arith

unparked-items :
    (reason : String) (ctx : Context) (row : JobRow) (db db' : Db) (u : Unit {0})
    → park reason ctx none row db ≡ ok (u, db')
    → db'.work_items ≡ db.work_items
unfolding park
unparked-items reason ctx row db db' u h = ground arith

unguarded-items :
    (job_id : String) (c : Change) (ctx : Context) (db db' : Db) (r : JobRow)
    → transition_unguarded job_id c ctx db ≡ ok (r, db')
    → db'.work_items ≡ db.work_items
unfolding transition_unguarded
unguarded-items job_id c ctx db db' r h = elim (Option-cases (fetchone (is_job job_id) db.jobs)) [
  | inl n ↦ absurd (ground arith)
  | inr (row, f) ↦ elim (Bool-cases (job_is row.status c.to_status)) [
    | inl s ↦ ap (λ (x : Db). x.work_items) (load-ok job_id db db' r (ground arith))
    | inr s ↦ elim (Bool-cases (is_report_job_transition_allowed row.status c.to_status)) [
      | inl a ↦
          ap (λ (x : Db). x.work_items)
            (write_status-ok job_id (apply_change c ctx.now)
              (status_event job_id row.status c.to_status c.event_type (transition_event_payload c)
                c.event_message ctx)
              db db' r (ground arith))
      | inr a ↦ absurd (ground arith)
    ]
  ]
]

execute_update-items :
    (p : JobRow → Bool) (f : JobRow → JobRow) (db db' : Db) (u : Unit {0})
    → execute_update p f db ≡ ok (u, db')
    → db'.work_items ≡ db.work_items
unfolding execute_update update_jobs
execute_update-items p f db db' u h = ground arith

check-Reads :
    (i : Option (String × String)) (to : ReportJobStatus) (work : Option WorkItemRow) (now : Time)
    → Reads (check_identity i to work now)
check-Reads none to work now = Reads-if _ _ _ (Reads-raise _) (Reads-return tt)
check-Reads (some i) to work now = Reads-if _ _ _ (Reads-return tt) (Reads-raise _)

module _ {ids : List String} (R : WorkItemRow → Type 0) where
  -- An UPDATE of the work items that keeps their ids; each row is a stored one.
  pub update_stored-IsStocked :
      (p : WorkItemRow → Bool) (f : WorkItemRow → WorkItemRow) (before after : Db)
      → after.work_items ≡ update p f before.work_items
      → ((w : WorkItemRow) → (f w).work_item_id ≡ w.work_item_id)
      → ((w : WorkItemRow) → In w before.work_items → R w → p w ≡ true → R (f w))
      → IsStocked ids R before
      → IsStocked ids R after
  update_stored-IsStocked p f before after e same keep c = record {
    stored =
        rw (e, map-update (λ (w : WorkItemRow). w.work_item_id) p f before.work_items same)
          c.stored;
    rows = rw e (
        All-update_each R p f before.work_items (
          All-of_In before.work_items (λ w m. elim (Bool-cases (p w)) [
            | inl t ↦ rw t (keep w m (In-All R before.work_items c.rows w m) t)
            | inr t ↦ rw t (In-All R before.work_items c.rows w m)
          ])));
    work_ids = rw e (IsUnique-update (λ w. w.work_item_id) p f before.work_items same c.work_ids);
  }

  pub update-IsStocked :
      (p : WorkItemRow → Bool) (f : WorkItemRow → WorkItemRow) (before after : Db)
      → after.work_items ≡ update p f before.work_items
      → ((w : WorkItemRow) → (f w).work_item_id ≡ w.work_item_id)
      → ((w : WorkItemRow) → R w → p w ≡ true → R (f w))
      → IsStocked ids R before
      → IsStocked ids R after
  update-IsStocked p f before after e same keep c =
      update_stored-IsStocked p f before after e same (λ w m. keep w) c

  pub same-IsStocked :
      (before after : Db)
      → after.work_items ≡ before.work_items
      → IsStocked ids R before
      → IsStocked ids R after
  same-IsStocked before after e c = record {
    stored = rw e c.stored;
    rows = rw e c.rows;
    work_ids = rw e c.work_ids;
  }

  module _ (over : AllowsOver R) where
    pub settle_work-IsStocked : (work_id : String) → Keeps (IsStocked ids R) (settle_work work_id)
    unfolding settle_work
    settle_work-IsStocked work_id db u db' h c =
        let e : db'.work_items ≡ update (is_work work_id) settled_work db.work_items =
          ground arith in
        update-IsStocked (is_work work_id) settled_work db db' e (λ w. refl)
          (λ w r p. over (settled_work w) refl refl) c

    pub park-IsStocked :
        (reason : String) (ctx : Context) (work : Option WorkItemRow) (row : JobRow)
        → Keeps (IsStocked ids R) (park reason ctx work row)
    park-IsStocked reason ctx none row db u db' h c =
        same-IsStocked db db' (unparked-items reason ctx row db db' u h) c
    park-IsStocked reason ctx (some work) row db u db' h c =
        elim (park_work-items reason ctx work row db db' u h) [
          | inl e ↦ same-IsStocked db db' e c
          | inr e ↦
              update-IsStocked _ (parked_work reason ctx.guard_now) db db' e (λ w. refl)
                (λ w r p. over (parked_work reason ctx.guard_now w) refl refl) c
        ]

    decide-IsStocked :
        (to : ReportJobStatus) (ctx : Context) (work : Option WorkItemRow) (row : JobRow)
        → Keeps (IsStocked ids R) (decide_required to ctx work row)
    unfolding decide_required
    decide-IsStocked to ctx work row =
        Keeps-if (IsStocked ids R) _ _ _ (Keeps-reads (IsStocked ids R) _ (Reads-return _)) (
          Keeps-if (IsStocked ids R) _ _ _
            (Keeps-bind (IsStocked ids R) _ _
              (park-IsStocked "custody_transition_blocked" ctx work row)
              (λ _. Keeps-reads (IsStocked ids R) _ (Reads-return true)))
            (Keeps-if (IsStocked ids R) _ _ _ (Keeps-reads (IsStocked ids R) _ (Reads-raise _))
              (Keeps-reads (IsStocked ids R) _ (Reads-return false))))

    guard_required-IsStocked :
        (to : ReportJobStatus) (ctx : Context) (row : JobRow)
        → Keeps (IsStocked ids R) (guard_required to ctx row)
    guard_required-IsStocked to ctx row =
        Keeps-bind (IsStocked ids R) (lock_pair row) _
          (Keeps-reads (IsStocked ids R) (lock_pair row) (λ d a d' e. lock_pair-ok row d d' a e))
          (λ work.
            Keeps-if (IsStocked ids R) _ _ _
              (Keeps-bind (IsStocked ids R) (check_identity ctx.identity to work ctx.guard_now) _
                (Keeps-reads (IsStocked ids R) _ (check-Reads ctx.identity to work ctx.guard_now))
                (λ _. decide-IsStocked to ctx work row))
              (Keeps-reads (IsStocked ids R) _ (Reads-return false)))

    pub guard-IsStocked :
        (job_id : String) (to : ReportJobStatus) (ctx : Context)
        → Keeps (IsStocked ids R) (guard_transition job_id to ctx)
    unfolding guard_transition
    guard-IsStocked job_id to ctx db b db' h c =
        elim (Option-cases (fetchone (is_job job_id) db.jobs)) [
          | inl n ↦ same-IsStocked db db' (ground arith) c
          | inr (row, f) ↦ elim (Bool-cases (is_none row.custody_policy)) [
            | inl n ↦ same-IsStocked db db' (ground arith) c
            | inr n ↦ guard_required-IsStocked to ctx row db b db' (ground arith) c
          ]
        ]

    pub transition-IsStocked :
        (job_id : String) (c : Change) (ctx : Context)
        → Keeps (IsStocked ids R) (transition_job job_id c ctx)
    unfolding transition_job
    transition-IsStocked job_id c ctx =
        Keeps-bind (IsStocked ids R) (guard_transition job_id c.to_status ctx) _
          (guard-IsStocked job_id c.to_status ctx)
          (λ settled.
            Keeps-if (IsStocked ids R) _ _ _
              (λ db r db' e k.
                same-IsStocked db db' (ap (λ (x : Db). x.work_items) (load-ok job_id db db' r e)) k)
              (λ db r db' e k. same-IsStocked db db' (unguarded-items job_id c ctx db db' r e) k))
