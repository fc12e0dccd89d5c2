-- ===== src/Jobs/Work/Rounds.antt =====
-- A claim, after the recovery of expired leases, keeps what every step on a work item keeps.
use lotus_report.Prelude.{
  ℕ, zero, suc, String, refl, Option, none, some, List, [], ◌∷◌, ◌++◌, arith,
}
use lotus_report.Sql.{
  update, fetchone, Keeps, Keeps-bind, Keeps-if, Keeps-reads, Keeps-connect, ◌>>◌, return,
  Reads-return,
}
use lotus_report.Clock.{Time}
use lotus_report.Jobs.Tables.{WorkItemRow, Db}
use lotus_report.Jobs.Custody.{Context}
use lotus_report.Jobs.Work.{ReportJobWorkRetryPolicy}
use lotus_report.Jobs.Work.Custody.{is_work, claimed}
use lotus_report.Jobs.Work.Queue.{holds_token}
use lotus_report.Jobs.Work.Claims.{
  recover_expired_work_items, claim_row, take_lease, keep_claimed, claim_one, claim_each, to_claim,
  claim_work_items,
}
use lotus_report.Jobs.Work.Invariant.{items-IsConsistent, claimed-IsConsistent}
use lotus_report.Jobs.Work.Closed.{IsClosed}
use lotus_report.Jobs.Work.Operations.{Sound}
use lotus_report.Jobs.Work.Recovery.{recover-IsConsistent}

module _ (ids : List String) (policy : ReportJobWorkRetryPolicy) (R : WorkItemRow → Type 0)
    (closed : IsClosed policy R) where
  module _ (now : Time) where
    module _ (worker : String) (n : ℕ) where
      claim_one-IsConsistent :
          (token : String) (ctx : Context) (i : String)
          → Keeps (Sound ids policy R closed) (claim_one worker token n now ctx i)
      unfolding claim_one
      claim_one-IsConsistent token ctx i db ws db' h c =
          let items = update (claim_row i) (take_lease worker token n now) db.work_items in
          kept (fetchone (is_work i) items) (record db { work_items = items }) ws db' h
            (items-IsConsistent R (claim_row i) (take_lease worker token n now) db (λ w. refl)
              (λ w m r p. closed.takes w now worker token n r (ground arith)) c)
        where
          kept :
              (o : Option WorkItemRow)
              → Keeps (Sound ids policy R closed) (keep_claimed token n ctx o)
          kept none = Keeps-reads (Sound ids policy R closed) _ (Reads-return [])
          kept (some w) =
              Keeps-if (Sound ids policy R closed) (holds_token token w.lease_token) _ _
                (Keeps-bind (Sound ids policy R closed) (claimed w token n ctx) _
                  (claimed-IsConsistent R w token n ctx)
                  (λ _. Keeps-reads (Sound ids policy R closed) _ (Reads-return (w ∷ []))))
                (Keeps-reads (Sound ids policy R closed) _ (Reads-return []))

      claim_each-IsConsistent :
          (ws : List WorkItemRow) (tokens : String → String) (draws : String → Context)
          → Keeps (Sound ids policy R closed) (claim_each ws worker tokens n now draws)
      unfolding claim_each
      claim_each-IsConsistent [] tokens draws =
          Keeps-reads (Sound ids policy R closed) _ (Reads-return [])
      claim_each-IsConsistent (w ∷ ws) tokens draws =
          Keeps-bind (Sound ids policy R closed)
            (claim_one worker (tokens w.work_item_id) n now (draws w.work_item_id) w.work_item_id) _
            (claim_one-IsConsistent (tokens w.work_item_id) (draws w.work_item_id) w.work_item_id)
            (λ first.
              Keeps-bind (Sound ids policy R closed) (claim_each ws worker tokens n now draws)
                (λ rest. return (first ++ rest)) (claim_each-IsConsistent ws tokens draws)
                (λ rest. Keeps-reads (Sound ids policy R closed) _ (Reads-return (first ++ rest))))

      pub claim-IsConsistent :
          (count : ℕ) (tokens : String → String) (draws : String → Context) (db : Db)
          → Sound ids policy R closed db
          → Sound ids policy R closed (claim_work_items worker count n policy now tokens draws db).1
      unfolding claim_work_items
      claim-IsConsistent zero tokens draws db c = c
      claim-IsConsistent (suc count) tokens draws db c =
          Keeps-connect (Sound ids policy R closed)
            (do
              recover_expired_work_items policy now draws
              λ d. claim_each (to_claim (suc count) now d) worker tokens n now draws d)
            db
            (Keeps-bind (Sound ids policy R closed) (recover_expired_work_items policy now draws) _
              (recover-IsConsistent ids policy R closed now draws)
              (λ _ d ws d' h k.
                claim_each-IsConsistent (to_claim (suc count) now d) tokens draws d ws d' h k))
            c
