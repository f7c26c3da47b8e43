-- ===== src/Jobs/Store/Rows.antt =====
-- The table as a map from the app and the job id to a row (jobs/app/store.py, jobs/app/models.py).
use funnelmanager.Prelude.{Text, [], arith, if◌then◌else◌, refl, some, text_eq_iff, ◌∷◌, ◌≡◌}
use funnelmanager.Jobs.Store.{Job, Table, is_row, find, save}

module _ {N : Type 0} where
  pub find-save :
      (t : Table N) (row : Job N) (a i : Text)
      → find (save t row) a i ≡ (if is_row a i row then some row else find t a i)
  unfolding find save
  find-save [] row a i = refl
  find-save (job ∷ t) row a i = ground (
    arith,
    find-save t row a i,
    text_eq_iff job.app row.app,
    text_eq_iff job.external_job_id row.external_job_id,
    text_eq_iff job.app a,
    text_eq_iff job.external_job_id i,
    text_eq_iff row.app a,
    text_eq_iff row.external_job_id i,
  )

  -- A row that the query finds has the key that was asked for.
  pub find_key :
      (t : Table N) (a i : Text) (job : Job N)
      → find t a i ≡ some job
      → (job.app ≡ a) × (job.external_job_id ≡ i)
  unfolding find
  find_key [] a i job h = cc
  find_key (x ∷ t) a i job h =
      ground (arith, find_key t a i job, text_eq_iff x.app a, text_eq_iff x.external_job_id i)
