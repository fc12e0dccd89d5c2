-- ===== src/Batch/Projection/Tenant.antt =====
-- The projection of a batch shows the status and the document of report jobs of one tenant only.
use lotus_report.Prelude.{
  String, ◌≡◌, refl, inl, inr, Option, none, some, List, [], ◌∷◌, ◌++◌, map, arith, All, In,
  All-refl, All-imp, Bool-cases, Option-cases, str_eq, eq_iff, ap, subst, sym, ◌∙◌, some_injective,
}
use lotus_report.Sql.{select, All-select, All-sort_rows}
use lotus_report.Text.{text_le, sort_texts}
use lotus_report.Batch.Models.{ItemRow}
use lotus_report.Jobs.Status.{ReportJobStatus, job_is}
use lotus_report.Jobs.Tables.{JobRow, Db}
use lotus_report.Batch.Projection.{
  ReportJobArchiveStatusRecord, distinct, chunks, in_chunk, archive_status, chunk_statuses,
  get_archive_statuses_by_job_ids, linked_ids, status_of, load_report_job_archive_statuses,
  BatchItemStatusResponse, linked_report_job, build_batch_item_status, report_job_of,
  batch_item_statuses,
}

-- The answer reads a stored job of the tenant.
pub record IsOwn (tenant_id : String) (jobs : List JobRow) (s : ReportJobArchiveStatusRecord)
    : Type 0 where
  pub row : JobRow
  pub stored : In row jobs
  pub own : row.tenant_id ≡ tenant_id
  pub reads : s ≡ archive_status row

All-map :
    (P : ReportJobArchiveStatusRecord → Type 0) (rs : List JobRow)
    → All (λ r. P (archive_status r)) rs
    → All P (map archive_status rs)
All-map P [] h = tt
All-map P (r ∷ rs) h = (h.0, All-map P rs h.1)

All-append :
    (P : ReportJobArchiveStatusRecord → Type 0) (xs ys : List ReportJobArchiveStatusRecord)
    → All P xs
    → All P ys
    → All P (xs ++ ys)
All-append P [] ys h k = k
All-append P (x ∷ xs) ys h k = (h.0, All-append P xs ys h.1 k)

module _ (tenant_id : String) (jobs : List JobRow) where
  chunks-IsOwn :
      (gs : List (List String)) → All (IsOwn tenant_id jobs) (chunk_statuses tenant_id jobs gs)
  chunks-IsOwn [] = tt
  chunks-IsOwn (ids ∷ gs) =
      All-append (IsOwn tenant_id jobs) _ (chunk_statuses tenant_id jobs gs)
        (All-map (IsOwn tenant_id jobs) _ (
          All-sort_rows (λ r. IsOwn tenant_id jobs (archive_status r))
            (λ a b. text_le a.report_job_id b.report_job_id) (select (in_chunk tenant_id ids) jobs)
            (All-imp _ _ (select (in_chunk tenant_id ids) jobs)
              (λ r m. record {
                row = r;
                stored = m.0;
                own = (eq_iff r.tenant_id tenant_id).0 (ground (arith, m.1));
                reads = refl;
              })
              (All-select (λ r. In r jobs) (in_chunk tenant_id ids) jobs (All-refl jobs)))))
        (chunks-IsOwn gs)

  status_of-IsOwn :
      (id : String) (ss : List ReportJobArchiveStatusRecord) (s : ReportJobArchiveStatusRecord)
      → All (IsOwn tenant_id jobs) ss
      → status_of id ss ≡ some s
      → IsOwn tenant_id jobs s
  unfolding status_of
  status_of-IsOwn id [] s h e = cc
  status_of-IsOwn id (x ∷ ss) s h e = elim (Option-cases (status_of id ss)) [
    | inr (t, k) ↦
        subst (IsOwn tenant_id jobs) (some_injective (sym (ground (arith, k)) ∙ e))
          (status_of-IsOwn id ss t h.1 k)
    | inl n ↦ subst (IsOwn tenant_id jobs) (ground arith) h.0
  ]

  -- What an item shows of its report job stands in a stored job of the tenant, to which it is linked.
  pub record ShowsOwn (r : BatchItemStatusResponse) : Type 0 where
    pub status :
        (s : ReportJobStatus)
        → r.report_job_status ≡ some s
        → (row : JobRow) × In row jobs
          × (row.tenant_id ≡ tenant_id)
          × (r.report_job_id ≡ some row.report_job_id)
          × (row.status ≡ s)
    pub document :
        (d : String)
        → r.archive_document_id ≡ some d
        → (row : JobRow) × In row jobs
          × (row.tenant_id ≡ tenant_id)
          × (r.report_job_id ≡ some row.report_job_id)
          × (row.status ≡ ReportJobStatus.archived)
          × (row.archive_document_id ≡ some d)

  shown :
      (item : ItemRow) (s : ReportJobArchiveStatusRecord)
      → IsOwn tenant_id jobs s
      → linked_report_job item.report_job_id (some s) ≡ some s
      → (row : JobRow) × In row jobs
        × (row.tenant_id ≡ tenant_id)
        × (item.report_job_id ≡ some row.report_job_id)
        × (row.status ≡ s.status)
        × (row.archive_document_id ≡ s.archive_document_id)
  shown item s own linked = (
    own.row,
    own.stored,
    own.own,
    same_id item.report_job_id linked
        ∙ ap (λ (x : ReportJobArchiveStatusRecord). some x.report_job_id) own.reads,
    ap (λ (x : ReportJobArchiveStatusRecord). x.status) (sym own.reads),
    ap (λ (x : ReportJobArchiveStatusRecord). x.archive_document_id) (sym own.reads),
  )
    where
      same_id :
          (o : Option String) → linked_report_job o (some s) ≡ some s → o ≡ some s.report_job_id
      same_id none e = cc
      same_id (some id) e = elim (Bool-cases (str_eq s.report_job_id id)) [
        | inl t ↦ ap (λ (x : String). some x) (sym ((eq_iff s.report_job_id id).0 t))
        | inr t ↦ absurd (ground (arith, t))
      ]

  item-ShowsOwn :
      (item : ItemRow) (o : Option ReportJobArchiveStatusRecord)
      → ((s : ReportJobArchiveStatusRecord) → o ≡ some s → IsOwn tenant_id jobs s)
      → ShowsOwn (build_batch_item_status item o)
  unfolding build_batch_item_status
  item-ShowsOwn item o own = elim (Option-cases (linked_report_job item.report_job_id o)) [
    | inl n ↦ record {
      status = λ s e. absurd (ground (arith, n));
      document = λ d e. absurd (ground (arith, n));
    }
    | inr (s, l) ↦
        let given = whole item.report_job_id o s l in
        let (row, stored, mine, same, status, document) =
          shown item s (own s given)
            (subst (λ x. linked_report_job item.report_job_id x ≡ some s) given l) in
        record {
          status = λ t e. (row, stored, mine, same, status ∙ ground (arith, l));
          document = λ d e. elim (Bool-cases (job_is s.status ReportJobStatus.archived)) [
            | inl a ↦ (
              row,
              stored,
              mine,
              same,
              status ∙ ground (arith, a),
              document ∙ ground (arith, l, a),
            )
            | inr a ↦ absurd (ground (arith, l, a))
          ];
        }
  ]
    where
      whole :
          (i : Option String) (o : Option ReportJobArchiveStatusRecord)
          (s : ReportJobArchiveStatusRecord)
          → linked_report_job i o ≡ some s
          → o ≡ some s
      whole none none s e = cc
      whole none (some x) s e = cc
      whole (some id) none s e = cc
      whole (some id) (some x) s e = ground arith

  found-IsOwn :
      (ss : List ReportJobArchiveStatusRecord) (item : ItemRow) (s : ReportJobArchiveStatusRecord)
      → All (IsOwn tenant_id jobs) ss
      → report_job_of ss item ≡ some s
      → IsOwn tenant_id jobs s
  found-IsOwn ss item s h e = elim (Option-cases item.report_job_id) [
    | inl n ↦ absurd (ground (arith, n))
    | inr (id, l) ↦ elim (Bool-cases (str_eq id "")) [
      | inl t ↦ absurd (ground (arith, l, t))
      | inr t ↦ status_of-IsOwn id ss s h (ground (arith, l, t))
    ]
  ]

  items-ShowsOwn :
      (items : List ItemRow) (ss : List ReportJobArchiveStatusRecord)
      → All (IsOwn tenant_id jobs) ss
      → All ShowsOwn (batch_item_statuses items ss)
  unfolding batch_item_statuses
  items-ShowsOwn [] ss h = tt
  items-ShowsOwn (item ∷ items) ss h = (
    item-ShowsOwn item (report_job_of ss item) (λ s e. found-IsOwn ss item s h e),
    items-ShowsOwn items ss h,
  )

-- Whatever links the items of a batch hold, the projection for a tenant shows of each item only the status
-- of a stored report job of that tenant to which the item is linked, and the document of such a job
-- only where it is archived.
pub projection-ShowsOwn :
    (items : List ItemRow) (tenant_id : String) (db : Db)
    → All
        (ShowsOwn tenant_id db.jobs)
        (batch_item_statuses items (load_report_job_archive_statuses items tenant_id db))
unfolding load_report_job_archive_statuses get_archive_statuses_by_job_ids
projection-ShowsOwn items tenant_id db = items-ShowsOwn tenant_id db.jobs items _ (
    chunks-IsOwn tenant_id db.jobs
      (chunks 500 (sort_texts (distinct (sort_texts (distinct (linked_ids items)))))))
