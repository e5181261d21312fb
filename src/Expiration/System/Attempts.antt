-- ===== src/Expiration/System/Attempts.antt =====
-- The attempts that the jobs have left, over the steps.
use polyglot_ticketing_v.Base.{
  ℕ, suc, ◌+◌, ◌-◌, ◌≤◌, ℤ, ◌≡◌, ◌≢◌, refl, sym, ap, subst, ◌∙◌, ◌⊎◌, String, false, Bool-cases,
  Option, none, some, List, [], ◌∷◌, inl, inr, str_eq, eq_iff, arith, if◌then◌else◌,
}
use mathlib.Core.List.{Memᴰ}
use polyglot_ticketing_v.Expiration.Effects.{Job, Message}
use polyglot_ticketing_v.Expiration.Processor.{completion_message}
use polyglot_ticketing_v.Expiration.System.{Entry, remaining, QueueApi}

-- How often an attempt at the job with an identity has thrown.
abbrev pub failures : String → List String → ℕ
failures id [] = 0
failures id (k ∷ ks) = let rest = failures id ks in if str_eq k id then suc rest else rest

-- The completion of an order is in the stream.
abbrev pub IsCompleted : String → List (ℤ × Message) → Type 0
IsCompleted id stream = (at : ℤ) × Memᴰ (at, completion_message id) stream

-- A job has been completed and has no attempt left, or its failures and the attempts that it has
-- left are five together; there is no failure of a job that is not there.
abbrev pub CountedAs : Option Entry → ℕ → ℕ → Type 0 → Type 0
CountedAs none left failed completed = failed ≡ 0
CountedAs (some entry) left failed completed = ((left ≡ 0) × completed) ⊎ (left + failed ≡ 5)

CountedAs-map :
    (o : Option Entry) (left failed : ℕ) (A B : Type 0)
    → (A → B)
    → CountedAs o left failed A
    → CountedAs o left failed B
CountedAs-map none left failed A B f h = h
CountedAs-map (some entry) left failed A B f (inl (finished, done)) = inl (finished, f done)
CountedAs-map (some entry) left failed A B f (inr counted) = inr counted

failures-same : (id : String) (ks : List String) → failures id (id ∷ ks) ≡ suc (failures id ks)
failures-same id ks = ground (arith, eq_iff id id)

failures-other : (id k : String) (ks : List String) → id ≢ k → failures id (k ∷ ks) ≡ failures id ks
failures-other id k ks other = ground (arith, eq_iff k id)

module _ (api : QueueApi) where
  abbrev pub Counted : api.Queue → List String → List (ℤ × Message) → Type 0
  Counted q thrown stream =
      (id : String)
      → CountedAs (api.get_job id q) (api.attempts_left id q) (failures id thrown)
          (IsCompleted id stream)

  -- The same jobs, attempts and failures at an identity.
  moved :
      (id : String) (q r : api.Queue) (thrown now_thrown : List String)
      (stream later : List (ℤ × Message))
      → api.get_job id r ≡ api.get_job id q
      → api.attempts_left id r ≡ api.attempts_left id q
      → failures id now_thrown ≡ failures id thrown
      → ((sent : ℤ × Message) → Memᴰ sent stream → Memᴰ sent later)
      → Counted q thrown stream
      → CountedAs
          (api.get_job id r)
          (api.attempts_left id r)
          (failures id now_thrown)
          (IsCompleted id later)
  moved id q r thrown now_thrown stream later same_job same_left same_failures kept h =
      rw (same_job, same_left, same_failures)
        (CountedAs-map (api.get_job id q) (api.attempts_left id q) (failures id thrown)
          (IsCompleted id stream) (IsCompleted id later) (λ (at, m). (at, kept _ m)) (h id))

  -- A job that is added: at its identity.
  added :
      (now : ℤ) (job : Job) (q : api.Queue) (thrown : List String) (stream : List (ℤ × Message))
      (o : Option Entry)
      → job.attempts ≡ 5
      → api.get_job job.job_id q ≡ o
      → Counted q thrown stream
      → CountedAs
          (api.get_job job.job_id (api.add now job q))
          (api.attempts_left job.job_id (api.add now job q))
          (failures job.job_id thrown)
          (IsCompleted job.job_id stream)
  added now job q thrown stream none five new h =
      rw (api.get_job-add now job q, api.attempts_left-add now job q, new)
        (inr (omega (arith, five, rw new at (h job.job_id))))
  added now job q thrown stream (some old) five known h =
      rw (api.get_job-add now job q, api.attempts_left-add now job q, known)
        (rw known at (h job.job_id))

  pub add-Counted :
      (now : ℤ) (job : Job) (q : api.Queue) (thrown : List String) (stream : List (ℤ × Message))
      → job.attempts ≡ 5
      → Counted q thrown stream
      → Counted (api.add now job q) thrown stream
  add-Counted now job q thrown stream five h id = elim (Bool-cases (str_eq id job.job_id)) [
    | inl same ↦
        subst
          (λ i.
            CountedAs (api.get_job i (api.add now job q)) (api.attempts_left i (api.add now job q))
              (failures i thrown) (IsCompleted i stream))
          (sym ((eq_iff id job.job_id).0 same))
          (added now job q thrown stream (api.get_job job.job_id q) five refl h)
    | inr differs ↦
        let other : id ≢ job.job_id = ground (arith, eq_iff id job.job_id) in
        moved id q (api.add now job q) thrown thrown stream stream
          (api.get_job-add_of_ne now job q id other)
          (api.attempts_left-add_of_ne now job q id other) refl (λ sent m. m) h
  ]

  -- One attempt less, and one failure more.
  failed_at :
      (left failed : ℕ) (A B : Type 0)
      → 1 ≤ left
      → ((left ≡ 0) × A) ⊎ (left + failed ≡ 5)
      → ((left - 1 ≡ 0) × B) ⊎ (left - 1 + suc failed ≡ 5)
  failed_at left failed A B some_left (inl (finished, done)) =
      absurd (omega (arith, some_left, finished))
  failed_at left failed A B some_left (inr counted) = inr (omega (arith, some_left, counted))

  pub fail-Counted :
      (job : Job) (entry : Entry) (q : api.Queue) (thrown : List String)
      (stream later : List (ℤ × Message))
      → api.get_job job.job_id q ≡ some entry
      → job.remove_on_fail ≡ false
      → 1 ≤ api.attempts_left job.job_id q
      → ((sent : ℤ × Message) → Memᴰ sent stream → Memᴰ sent later)
      → Counted q thrown stream
      → Counted (api.fail job q) (job.job_id ∷ thrown) later
  fail-Counted job entry q thrown stream later found keeps some_left kept h id =
      elim (Bool-cases (str_eq id job.job_id)) [
        | inl same ↦
            subst
              (λ i.
                CountedAs (api.get_job i (api.fail job q)) (api.attempts_left i (api.fail job q))
                  (failures i (job.job_id ∷ thrown)) (IsCompleted i later))
              (sym ((eq_iff id job.job_id).0 same))
              (rw
                (
                  api.get_job-fail job q job.job_id keeps ∙ found,
                  api.attempts_left-fail job q,
                  failures-same job.job_id thrown,
                )
                (failed_at (api.attempts_left job.job_id q) (failures job.job_id thrown)
                  (IsCompleted job.job_id stream) (IsCompleted job.job_id later) some_left
                  (rw found at (h job.job_id))))
        | inr differs ↦
            let other : id ≢ job.job_id = ground (arith, eq_iff id job.job_id) in
            moved id q (api.fail job q) thrown (job.job_id ∷ thrown) stream later
              (api.get_job-fail job q id keeps) (api.attempts_left-fail_of_ne job q id other)
              (failures-other id job.job_id thrown other) kept h
      ]

  pub complete-Counted :
      (job : Job) (entry : Entry) (q : api.Queue) (thrown : List String)
      (stream later : List (ℤ × Message))
      → api.get_job job.job_id q ≡ some entry
      → job.remove_on_complete ≡ false
      → IsCompleted job.job_id later
      → ((sent : ℤ × Message) → Memᴰ sent stream → Memᴰ sent later)
      → Counted q thrown stream
      → Counted (api.complete job q) thrown later
  complete-Counted job entry q thrown stream later found keeps done kept h id =
      elim (Bool-cases (str_eq id job.job_id)) [
        | inl same ↦
            subst
              (λ i.
                CountedAs (api.get_job i (api.complete job q))
                  (api.attempts_left i (api.complete job q)) (failures i thrown)
                  (IsCompleted i later))
              (sym ((eq_iff id job.job_id).0 same))
              (rw (api.get_job-complete job q job.job_id keeps ∙ found)
                (inl (api.attempts_left-complete job q, done)))
        | inr differs ↦
            let other : id ≢ job.job_id = ground (arith, eq_iff id job.job_id) in
            moved id q (api.complete job q) thrown thrown stream later
              (api.get_job-complete job q id keeps)
              (api.attempts_left-complete_of_ne job q id other) refl kept h
      ]

  -- The attempts of the jobs that are there do not grow.
  abbrev pub Shrinks : api.Queue → api.Queue → Type 0
  Shrinks q r =
      (id : String) (entry : Entry)
      → api.get_job id q ≡ some entry
      → api.attempts_left id r ≤ api.attempts_left id q

  remaining_known :
      (o : Option Entry) (new left : ℕ) (entry : Entry)
      → o ≡ some entry
      → remaining o new left ≡ left
  remaining_known none new left entry h = cc
  remaining_known (some old) new left entry h = refl

  pub add-Shrinks : (now : ℤ) (job : Job) (q : api.Queue) → Shrinks q (api.add now job q)
  add-Shrinks now job q id entry found = elim (Bool-cases (str_eq id job.job_id)) [
    | inl same ↦
        let e = (eq_iff id job.job_id).0 same in
        subst (λ i. api.attempts_left i (api.add now job q) ≤ api.attempts_left i q) (sym e)
          (omega (
            arith,
            api.attempts_left-add now job q,
            remaining_known (api.get_job job.job_id q) job.attempts (api.attempts_left job.job_id q)
                entry (ap (λ i. api.get_job i q) (sym e) ∙ found),
          ))
    | inr differs ↦
        omega
          (arith, api.attempts_left-add_of_ne now job q id (ground (arith, eq_iff id job.job_id)))
  ]

  pub fail-Shrinks : (job : Job) (q : api.Queue) → Shrinks q (api.fail job q)
  fail-Shrinks job q id entry found = elim (Bool-cases (str_eq id job.job_id)) [
    | inl same ↦
        subst (λ i. api.attempts_left i (api.fail job q) ≤ api.attempts_left i q)
          (sym ((eq_iff id job.job_id).0 same)) (omega (arith, api.attempts_left-fail job q))
    | inr differs ↦
        omega (arith, api.attempts_left-fail_of_ne job q id (ground (arith, eq_iff id job.job_id)))
  ]

  pub complete-Shrinks : (job : Job) (q : api.Queue) → Shrinks q (api.complete job q)
  complete-Shrinks job q id entry found = elim (Bool-cases (str_eq id job.job_id)) [
    | inl same ↦
        subst (λ i. api.attempts_left i (api.complete job q) ≤ api.attempts_left i q)
          (sym ((eq_iff id job.job_id).0 same)) (omega (arith, api.attempts_left-complete job q))
    | inr differs ↦
        omega
          (arith, api.attempts_left-complete_of_ne job q id (ground (arith, eq_iff id job.job_id)))
  ]
