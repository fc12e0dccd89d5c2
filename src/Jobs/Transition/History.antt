-- ===== src/Jobs/Transition/History.antt =====
-- The log of status events explains the status of every job.
use lotus_report.Prelude.{
  some_injective, eq_refl, String, Bool, true, false, ◌&&◌, ◌||◌, ◌≡◌, refl, sym, inl, inr, Option,
  none, some, List, [], ◌∷◌, arith, Bool-cases, All, In, In-All, ap, ◌∙◌, if◌then◌else◌, str_eq,
  subst, eq_iff,
}
use lotus_report.Sql.{
  All-update, fetchone, fetchone-true, found_of_In, IsUnique, IsUnique-update, All-update_each,
  All-of_In,
}
use lotus_report.Jobs.Status.{ReportJobStatus, job_is}
use lotus_report.Jobs.Tables.{JobRow, Db, is_job}
use lotus_report.Jobs.Events.{StatusEvent}
use lotus_report.Jobs.Custody.{Context, at_epoch, parked_job, parked_event}
use lotus_report.Jobs.Transition.Marks.{Operation, apply, run}
use lotus_report.Jobs.Transition.Effect.{apply-Effect}
use lotus_report.Jobs.Transition.Move.{legal, IsMove, IsPark, Effect, same, parked, moved}

abbrev pub is_status : Option ReportJobStatus → ReportJobStatus → Bool
is_status none s = false
is_status (some t) s = job_is t s

-- An event opens a job as accepted, moves it lawfully, or stays where it is.
abbrev pub lawful : StatusEvent → Bool
lawful e = elim e.from_status [
  | none ↦ job_is e.to_status ReportJobStatus.accepted
  | some from ↦ job_is from e.to_status || legal from e.to_status
]

-- Read from the newest, the events of a job lead from `status` back to no status at all, each from
-- where the one before it went, and all of them lawful.
unfoldable pub replays : String → List StatusEvent → Option ReportJobStatus → Bool
replays job_id [] none = true
replays job_id [] (some s) = false
replays job_id (e ∷ es) status =
    let own = str_eq e.report_job_id job_id in
    let rest = replays job_id es (if own then e.from_status else status) in
    if own then is_status status e.to_status && lawful e && rest else rest

pub record IsAudited (db : Db) : Type 0 where
  pub history :
      All (λ (r : JobRow). replays r.report_job_id db.events (some r.status) ≡ true) db.jobs
  pub job_ids : IsUnique (λ (r : JobRow). r.report_job_id) db.jobs

replays-own :
    (e : StatusEvent) (es : List StatusEvent) (job_id : String) (s : ReportJobStatus)
    (t : Option ReportJobStatus)
    → e.report_job_id ≡ job_id
    → e.from_status ≡ t
    → job_is s e.to_status ≡ true
    → lawful e ≡ true
    → replays job_id es t ≡ true
    → replays job_id (e ∷ es) (some s) ≡ true
unfolding replays
replays-own e es job_id s t of from to law rest =
    let own : str_eq e.report_job_id job_id ≡ true = rw of (eq_refl job_id) in
    rw (own, to, law, from, rest) refl

replays-other :
    (e : StatusEvent) (es : List StatusEvent) (job_id : String) (s : Option ReportJobStatus)
    → str_eq e.report_job_id job_id ≡ false
    → replays job_id es s ≡ true
    → replays job_id (e ∷ es) s ≡ true
unfolding replays
replays-other e es job_id s other rest = rw (other, rest) refl

job_is_refl : (s : ReportJobStatus) → job_is s s ≡ true
job_is_refl s = ground arith

moved_lawful :
    (e : StatusEvent) (s : ReportJobStatus)
    → e.from_status ≡ some s
    → legal s e.to_status ≡ true
    → lawful e ≡ true
moved_lawful e s from law = rw (from, law) (or_true (job_is s e.to_status))
  where
    or_true : (b : Bool) → (b || true) ≡ true
    or_true b = ground arith

module _ (job_id : String) (before after : Db) (h : IsAudited before) where
  the_row :
      (row r : JobRow)
      → fetchone (is_job job_id) before.jobs ≡ some row
      → In r before.jobs
      → is_job job_id r ≡ true
      → r ≡ row
  the_row row r found m p =
      let here =
        found_of_In (λ (j : JobRow). j.report_job_id) job_id before.jobs r h.job_ids m
          ((eq_iff r.report_job_id job_id).0 p) in
      some_injective (sym here ∙ found)

  told :
      (r : JobRow) → In r before.jobs → replays r.report_job_id before.events (some r.status) ≡ true
  told r m = In-All _ before.jobs h.history r m

  -- The history of a job after an event of `job_id` that finds it in the status `s`.
  extended :
      (e : StatusEvent) (row r : JobRow) (s : ReportJobStatus)
      → fetchone (is_job job_id) before.jobs ≡ some row
      → In r before.jobs
      → is_job job_id r ≡ true
      → e.report_job_id ≡ job_id
      → e.from_status ≡ some row.status
      → job_is s e.to_status ≡ true
      → lawful e ≡ true
      → replays r.report_job_id (e ∷ before.events) (some s) ≡ true
  extended e row r s found m own of from to law =
      replays-own e before.events r.report_job_id s (some row.status)
        (of ∙ sym ((eq_iff r.report_job_id job_id).0 own)) from to law
        (subst (λ (t : JobRow). replays r.report_job_id before.events (some t.status) ≡ true)
          (the_row row r found m own) (told r m))

  untouched :
      (e : StatusEvent) (r : JobRow)
      → In r before.jobs
      → is_job job_id r ≡ false
      → e.report_job_id ≡ job_id
      → replays r.report_job_id (e ∷ before.events) (some r.status) ≡ true
  untouched e r m other of =
      replays-other e before.events r.report_job_id (some r.status)
        (rw of
          (ground (arith, other, eq_iff r.report_job_id job_id, eq_iff job_id r.report_job_id)))
        (told r m)

  parked-IsAudited : IsPark job_id before after → IsAudited after
  parked-IsAudited k =
      let own : k.row.report_job_id ≡ job_id =
        (eq_iff k.row.report_job_id job_id).0
          (fetchone-true (is_job job_id) before.jobs k.row k.found) in
      let e = parked_event k.reason k.ctx k.row in
      record {
        history =
            rw (k.jobs, k.events)
              (All-update
                (λ (r : JobRow). replays r.report_job_id (e ∷ before.events) (some r.status) ≡ true)
                (at_epoch k.row) (parked_job k.reason) before.jobs (λ r p at. p)
                (All-of_In before.jobs (λ r m. elim (Bool-cases (is_job job_id r)) [
                  | inl t ↦
                      extended e k.row r r.status k.found m t own refl
                        (ap (λ (x : JobRow). job_is r.status x.status)
                            (sym (the_row k.row r k.found m t))
                          ∙ job_is_refl r.status)
                        (rw (job_is_refl k.row.status) refl)
                  | inr f ↦ untouched e r m f own
                ])));
        job_ids = rw k.jobs (
            IsUnique-update (λ (r : JobRow). r.report_job_id) (at_epoch k.row) (parked_job k.reason)
              before.jobs (λ r. refl) h.job_ids);
      }

  moved-IsAudited : IsMove job_id before after → IsAudited after
  moved-IsAudited k = record {
    history =
        rw (k.jobs, k.events)
          (All-update_each
            (λ (r : JobRow).
              replays r.report_job_id (k.event ∷ before.events) (some r.status) ≡ true)
            (is_job job_id) k.f before.jobs
            (All-of_In before.jobs (λ r m. elim (Bool-cases (is_job job_id r)) [
              | inl t ↦
                  rw (t, k.keeps_id r, k.to r)
                    (extended k.event k.row r k.event.to_status k.found m t k.of_job k.from
                      (job_is_refl k.event.to_status)
                      (moved_lawful k.event k.row.status k.from k.lawful))
              | inr f ↦ rw f (untouched k.event r m f k.of_job)
            ])));
    job_ids = rw k.jobs (
        IsUnique-update (λ (r : JobRow). r.report_job_id) (is_job job_id) k.f before.jobs k.keeps_id
          h.job_ids);
  }

  pub Effect-IsAudited : Effect job_id before after → IsAudited after
  Effect-IsAudited (same e) = rw e h
  Effect-IsAudited (parked k) = parked-IsAudited k
  Effect-IsAudited (moved k) = moved-IsAudited k

-- If the log explains the status of every job, it still does after any sequence of operations on
-- any jobs: replayed from the newest event, the events of each job lead from its stored status back
-- to its acceptance, each step one that the lifecycle table or the cancel rule allows, or one that
-- parks the job where it is.
pub run-IsAudited :
    (ops : List (String × Operation × Context)) (db : Db) → IsAudited db → IsAudited (run ops db)
unfolding run
run-IsAudited [] db h = h
run-IsAudited ((job_id, op, ctx) ∷ ops) db h =
    run-IsAudited ops (apply job_id op ctx db)
      (Effect-IsAudited job_id db (apply job_id op ctx db) h (apply-Effect job_id op ctx db))
