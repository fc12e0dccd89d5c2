-- ===== src/Batch/Admission.antt =====
-- src/app/report_batch_orchestrator/tenant_admission.py: a caller reaches the batches of its own
-- tenant only, and a foreign batch looks like an absent one.
use lotus_report.Prelude.{
  ap, sym, ◌∙◌, some_injective, String, Bool, true, false, not, ◌||◌, ◌≡◌, ◌≢◌, ◌↔◌, refl, inl, inr,
  Option, none, some, arith, Bool-cases, Option-cases, if◌then◌else◌, str_eq, eq_iff,
}
use lotus_report.Sql.{order_by, select, Result, ok, err, fetchone}
use lotus_report.Text.{strip}
use lotus_report.Batch.Models.{BatchRow, ReportBatchRecord}
use lotus_report.Batch.Selector.{ReportCallerContext}
use lotus_report.Batch.Ledger.Tables.{in_batch, Db, LedgerError, is_batch, load_batch}

-- The scope of a configured scheduler.
pub record SchedulerScope : Type 0 where
  pub tenant_id : String
  pub region : String
  pub booking_center_code : Option String

-- `a == b` on optional texts
abbrev pub same_option : Option String → Option String → Bool
same_option none none = true
same_option (some a) (some b) = str_eq a b
same_option _ _ = false

-- `admit_scheduler`: whether it returns without raising SchedulerTenantAdmissionError
unfoldable pub admit_scheduler : SchedulerScope → ReportCallerContext → Bool
admit_scheduler scope caller = not (
    str_eq (strip scope.tenant_id) ""
    || str_eq (strip scope.region) ""
    || not (str_eq scope.tenant_id caller.tenant_id)
    || not (str_eq scope.region caller.region)
    || not (same_option scope.booking_center_code caller.booking_center_code))

unfoldable pub admit_batch :
    ReportBatchRecord → ReportCallerContext → Result LedgerError ReportBatchRecord
admit_batch batch caller =
    if not (str_eq batch.tenant_id caller.tenant_id)
    then err LedgerError.report_batch_not_found
    else ok batch

-- `get_batch`, which reads and changes nothing
unfoldable pub get_batch : String → Db → Result LedgerError ReportBatchRecord
unfolding load_batch
get_batch batch_id db = elim (load_batch batch_id db) [ ok (r, db') ↦ ok r | err e ↦ err e ]

unfoldable pub load_admitted_batch :
    String → ReportCallerContext → Db → Result LedgerError ReportBatchRecord
unfolding get_batch admit_batch
load_admitted_batch batch_id caller db = elim (get_batch batch_id db) [
  | ok r ↦ admit_batch r caller
  | err e ↦ err e
]

-- A caller is admitted to a batch exactly when a batch with that id is stored under the caller's
-- tenant; to every other id, unknown or of another tenant, the answer is the same
-- `report_batch_not_found`.
pub load_admitted_batch_lem :
    (batch_id : String) (caller : ReportCallerContext) (db : Db)
    → ((r : ReportBatchRecord)
        → load_admitted_batch batch_id caller db ≡ ok r
        → (fetchone (is_batch batch_id) db.batches ≡ some r.row) × (r.tenant_id ≡ caller.tenant_id))
      × ((row : BatchRow)
          → fetchone (is_batch batch_id) db.batches ≡ some row
          → row.tenant_id ≡ caller.tenant_id
          → (r : ReportBatchRecord) × (load_admitted_batch batch_id caller db ≡ ok r)
            × (r.row ≡ row))
      × ((row : BatchRow)
          → fetchone (is_batch batch_id) db.batches ≡ some row
          → row.tenant_id ≢ caller.tenant_id
          → load_admitted_batch batch_id caller db ≡ err LedgerError.report_batch_not_found)
      × (fetchone (is_batch batch_id) db.batches ≡ none
          → load_admitted_batch batch_id caller db ≡ err LedgerError.report_batch_not_found)
unfolding load_admitted_batch load_batch
load_admitted_batch_lem batch_id caller db = (
  λ r h. elim (Option-cases (fetchone (is_batch batch_id) db.batches)) [
    | inl n ↦ absurd (ground arith)
    | inr (row, f) ↦ elim (Bool-cases (str_eq row.tenant_id caller.tenant_id)) [
      | inl e ↦
          let same : row ≡ r.row = ground arith in
          (
            f ∙ ap (λ (x : BatchRow). some x) same,
            ap (λ (x : BatchRow). x.tenant_id) (sym same)
                ∙ (eq_iff row.tenant_id caller.tenant_id).0 e,
          )
      | inr e ↦ absurd (ground arith)
    ]
  ],
  λ row f e.
      let own : str_eq row.tenant_id caller.tenant_id ≡ true =
        (eq_iff row.tenant_id caller.tenant_id).1 e in
      (
        record {
          row = row;
          items = order_by (λ r. r.item_position) (select (in_batch batch_id) db.items);
        },
        ground arith,
        refl,
      ),
  λ row f ne. ground (arith, eq_iff row.tenant_id caller.tenant_id),
  λ n. ground arith,
)

same_option_iff : (a b : Option String) → (same_option a b ≡ true) ↔ (a ≡ b)
same_option_iff none none = (λ h. refl, λ h. refl)
same_option_iff none (some b) = (λ h. cc, λ h. cc)
same_option_iff (some a) none = (λ h. cc, λ h. cc)
same_option_iff (some a) (some b) =
    (λ h. ap (λ (x : String). some x) ((eq_iff a b).0 h), λ h. (eq_iff a b).1 (some_injective h))

-- A caller is admitted to a configured scheduler exactly when tenant, region and booking centre are
-- its own and neither tenant nor region is blank.
pub admit_scheduler_lem :
    (scope : SchedulerScope) (caller : ReportCallerContext)
    → (admit_scheduler scope caller ≡ true) ↔ (
        (strip scope.tenant_id ≢ "")
        × (strip scope.region ≢ "")
        × (scope.tenant_id ≡ caller.tenant_id)
        × (scope.region ≡ caller.region)
        × (scope.booking_center_code ≡ caller.booking_center_code))
unfolding admit_scheduler
admit_scheduler_lem scope caller = ground (
  arith,
  eq_iff (strip scope.tenant_id) "",
  eq_iff (strip scope.region) "",
  eq_iff scope.tenant_id caller.tenant_id,
  eq_iff scope.region caller.region,
  same_option_iff scope.booking_center_code caller.booking_center_code,
)
