-- ===== src/Expiration/System/Jobs.antt =====
-- Which jobs the queue has after one is added.
use polyglot_ticketing_v.Base.{
  ℤ, ◌≡◌, sym, ap, subst, ◌∙◌, ◌⊎◌, String, Bool-cases, Option, none, some, inl, inr, str_eq,
  eq_iff, arith,
}
use polyglot_ticketing_v.Expiration.Effects.{Job}
use polyglot_ticketing_v.Expiration.Scheduler.Timing.{due}
use polyglot_ticketing_v.Expiration.System.{Entry, or_else, QueueApi}

module _ (api : QueueApi) where
  -- The second queue has the jobs of the first, as they are.
  abbrev pub Keeps : api.Queue → api.Queue → Type 0
  Keeps q r =
      (id : String) (entry : Entry) → api.get_job id q ≡ some entry → api.get_job id r ≡ some entry

  or_else-some : (o : Option Entry) (old new : Entry) → o ≡ some old → or_else o new ≡ old
  or_else-some o old new h = rw h

  pub add-Keeps : (now : ℤ) (job : Job) (q : api.Queue) → Keeps q (api.add now job q)
  add-Keeps now job q id entry h = elim (Bool-cases (str_eq id job.job_id)) [
    | inl same ↦
        let e = (eq_iff id job.job_id).0 same in
        ap (λ i. api.get_job i (api.add now job q)) e
        ∙ api.get_job-add now job q
        ∙ ap some (
            or_else-some (api.get_job job.job_id q) entry (job, due now job.delay)
              (subst (λ i. api.get_job i q ≡ some entry) e h))
    | inr other ↦ api.get_job-add_of_ne now job q id (ground (arith, eq_iff id job.job_id)) ∙ h
  ]

  or_else-cases :
      (o : Option Entry) (new entry : Entry)
      → some (or_else o new) ≡ some entry
      → (o ≡ some entry) ⊎ (entry ≡ new)
  or_else-cases none new entry h = inr cc
  or_else-cases (some old) new entry h = inl h

  -- A job of the queue that is added to is one of before, or the new one.
  pub get_job-add_cases :
      (now : ℤ) (job : Job) (q : api.Queue) (id : String) (entry : Entry)
      → api.get_job id (api.add now job q) ≡ some entry
      → (api.get_job id q ≡ some entry) ⊎ ((id ≡ job.job_id) × (entry ≡ (job, due now job.delay)))
  get_job-add_cases now job q id entry h = elim (Bool-cases (str_eq id job.job_id)) [
    | inl same ↦
        let e = (eq_iff id job.job_id).0 same in
        go e (
          or_else-cases (api.get_job job.job_id q) (job, due now job.delay) entry
            (sym (api.get_job-add now job q)
              ∙ ap (λ i. api.get_job i (api.add now job q)) (sym e)
              ∙ h))
    | inr other ↦
        inl (sym (api.get_job-add_of_ne now job q id (ground (arith, eq_iff id job.job_id))) ∙ h)
  ]
    where
      go :
          id ≡ job.job_id
          → (api.get_job job.job_id q ≡ some entry) ⊎ (entry ≡ (job, due now job.delay))
          → (api.get_job id q ≡ some entry)
            ⊎ ((id ≡ job.job_id) × (entry ≡ (job, due now job.delay)))
      go e (inl old) = inl (ap (λ i. api.get_job i q) e ∙ old)
      go e (inr new) = inr (e, new)
