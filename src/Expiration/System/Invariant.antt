-- ===== src/Expiration/System/Invariant.antt =====
-- What holds in every state that the service can reach.
use polyglot_ticketing_v.Base.{
  ℕ, ℤ, is_le, ◌≡◌, refl, sym, ap, subst, ◌∙◌, ◌⊎◌, String, true, false, Option, none, some, List,
  ◌∷◌, Result, ok, err, inl, inr, arith,
}
use mathlib.Core.List.{Memᴰ}
use mathlib.Core.List.Memᴰ
use polyglot_ticketing_v.Value.{Value}
use polyglot_ticketing_v.Expiration.Effects.{Failure, Job, Message, Run}
use polyglot_ticketing_v.Expiration.Scheduler.{expiration_job}
use polyglot_ticketing_v.Expiration.Scheduler.Timing.{due}
use polyglot_ticketing_v.Expiration.Handler.{Decoder}
use polyglot_ticketing_v.Expiration.Consumer.{handle_delivery}
use polyglot_ticketing_v.Expiration.Processor.{completion_message, process}
use polyglot_ticketing_v.Expiration.System.{
  Entry, QueueApi, System, init, add_all, publish_all, finish, after_attempt, Step, tick, deliver,
  deliver_lost, attempt, attempt_lost, Reach, start, later,
}
use polyglot_ticketing_v.Expiration.System.Origin.{
  Origin, Origin-later, Origin-job, Published, IsTraced, Adds, handle-Adds, handle_delivery-Adds,
}
use polyglot_ticketing_v.Expiration.System.Jobs.{Keeps, add-Keeps, get_job-add_cases}

module _ (api : QueueApi) (decoder : Decoder) where
  Published-Keeps :
      (q r : api.Queue) (sent : ℤ × Message)
      → Keeps api q r
      → Published decoder api q sent
      → Published decoder api r sent
  Published-Keeps q r (at, m) keeps (job, t, found, completes, after) =
      (job, t, keeps m.order_id (job, t) found, completes, after)

  -- What a delivery leads to.
  abbrev Next : System api → System api → Type 0
  Next s t = IsTraced decoder api t × Keeps api s.queue t.queue

  Adds-Next :
      (s : System api) (payload : List ℕ) (r : api.Queue)
      → IsTraced decoder api s
      → Adds decoder api s.now payload s.queue r
      → Next s (record s { queue = r; delivered = payload ∷ s.delivered })
  unfolding expiration_job
  Adds-Next s payload r traced (inl same) = (
    record {
      jobs = λ id entry h.
          Origin-later decoder payload
            (traced.jobs id entry (ap (λ q. api.get_job id q) (sym same) ∙ h));
      messages =
          λ sent m. subst (λ q. Published decoder api q sent) (sym same) (traced.messages sent m);
    },
    λ id entry h. ap (λ q. api.get_job id q) same ∙ h,
  )
  Adds-Next s payload r traced (inr (event, expiry, accepted, added)) =
      let job = expiration_job s.now event.order_id expiry in
      let keeps = add-Keeps api s.now job s.queue in
      subst (λ q. Next s (record s { queue = q; delivered = payload ∷ s.delivered })) (sym added)
        (
          record {
            jobs = λ id entry h.
                from_cases id entry (get_job-add_cases api s.now job s.queue id entry h);
            messages = λ sent m.
                Published-Keeps s.queue (api.add s.now job s.queue) sent keeps
                  (traced.messages sent m);
          },
          keeps,
        )
    where
      from_cases :
          (id : String) (entry : Entry)
          → (api.get_job id s.queue ≡ some entry)
            ⊎ ((id ≡ event.order_id)
                × (entry ≡ (
                  expiration_job s.now event.order_id expiry,
                  due s.now (expiration_job s.now event.order_id expiry).delay,
                )))
          → Origin decoder (payload ∷ s.delivered) id entry
      from_cases id entry (inl old) = Origin-later decoder payload (traced.jobs id entry old)
      from_cases id entry (inr (named, made)) = record {
        payload = payload;
        event = event;
        expiry = expiry;
        added = s.now;
        delivery = Memᴰ.head refl;
        accepted = accepted;
        named = named;
        made = made;
      }

  pub get_job-finish :
      (job : Job) (r : Result Failure (Unit {0})) (q : api.Queue) (id : String)
      → job.remove_on_complete ≡ false
      → job.remove_on_fail ≡ false
      → api.get_job id (finish api job r q) ≡ api.get_job id q
  get_job-finish job (ok done) q id c f = api.get_job-complete job q id c
  get_job-finish job (err e) q id c f = api.get_job-fail job q id f

  pub publish_all-process :
      (publish : Result Value (Unit {0})) (job : Job) (now : ℤ) (stream : List (ℤ × Message))
      → (publish_all api now (process publish job).1 stream ≡ stream)
        ⊎ (publish_all api now (process publish job).1 stream
            ≡ (now, completion_message job.order_id) ∷ stream)
  unfolding process
  publish_all-process publish job now stream = ground arith

  sent-Published :
      (q : api.Queue) (now : ℤ) (job : Job) (t : ℤ) (stream sents : List (ℤ × Message))
      → api.get_job job.order_id q ≡ some (job, t)
      → is_le t now ≡ true
      → ((sent : ℤ × Message) → Memᴰ sent stream → Published decoder api q sent)
      → (sents ≡ stream) ⊎ (sents ≡ (now, completion_message job.order_id) ∷ stream)
      → (sent : ℤ × Message) → Memᴰ sent sents
      → Published decoder api q sent
  sent-Published q now job t stream sents found late before (inl none_sent) sent m =
      before sent (subst (λ l. Memᴰ sent l) none_sent m)
  sent-Published q now job t stream sents found late before (inr one_sent) sent m =
      elim (Memᴰ.cases_cons (subst (λ l. Memᴰ sent l) one_sent m)) [
        | inl new ↦ subst (λ l. Published decoder api q l) (sym new) (job, t, found, refl, late)
        | inr old ↦ before sent old
      ]

  attempt-Next :
      (s : System api) (id : String) (job : Job) (t : ℤ) (r : Run (Unit {0}))
      (publish : Result Value (Unit {0}))
      → IsTraced decoder api s
      → api.get_job id s.queue ≡ some (job, t)
      → is_le t s.now ≡ true
      → Next s (after_attempt api s job r (process publish job).1)
  attempt-Next s id job t r publish traced found late =
      let (named, known, completes, fails) = Origin-job decoder (traced.jobs id (job, t) found) in
      let same = λ (i : String). get_job-finish job r.0 s.queue i completes fails in
      let found' = ap (λ i. api.get_job i s.queue) named ∙ found in
      let keeps : Keeps api s.queue (finish api job r.0 s.queue) = λ i entry h. same i ∙ h in
      (
        record {
          jobs = λ i entry h. traced.jobs i entry (sym (same i) ∙ h);
          messages = λ sent m. Published-Keeps s.queue (finish api job r.0 s.queue) sent keeps (
              sent-Published s.queue s.now job t s.stream
                (publish_all api s.now (process publish job).1 s.stream) found' late traced.messages
                (publish_all-process publish job s.now s.stream) sent m);
        },
        keeps,
      )

  -- Every step keeps the trace, and the jobs that are in the queue.
  pub Step-Next : {s t : System api} → Step api decoder s t → IsTraced decoder api s → Next s t
  Step-Next {s} (tick n) traced =
      (record { jobs = traced.jobs; messages = traced.messages }, λ id entry h. h)
  Step-Next {s} (deliver env payload count clock) traced = Adds-Next s payload _ traced (
      subst
        (λ now.
          Adds decoder api now payload s.queue
            (add_all api now (handle_delivery decoder env payload count).1 s.queue))
        clock (handle_delivery-Adds decoder api env payload count s.queue))
  Step-Next {s} (deliver_lost payload) traced =
      Adds-Next s payload _ traced (handle-Adds decoder api payload (ok tt) s.now s.queue)
  Step-Next {s} (attempt id job t publish found late left) traced =
      attempt-Next s id job t (process publish job) publish traced found late
  Step-Next {s} (attempt_lost id job t e found late left) traced =
      attempt-Next s id job t (process (err e) job) (ok tt) traced found late

  none-ne-some : {entry : Entry} → ◌≡◌ {A = Option Entry} none (some entry) → ⊥
  none-ne-some e = ground arith

  pub Reach-Next : {s t : System api} → Reach api decoder s t → IsTraced decoder api s → Next s t
  Reach-Next {s} start traced = (traced, λ id entry h. h)
  Reach-Next {s} (later r step) traced =
      let (traced', before) = Reach-Next r traced in
      let (traced'', after) = Step-Next step traced' in
      (traced'', λ id entry h. after id entry (before id entry h))

  pub init-IsTraced : (now : ℤ) → IsTraced decoder api (init api now)
  init-IsTraced now = record {
    jobs = λ id entry h. absurd (none-ne-some (sym (api.get_job-empty id) ∙ h));
    messages = λ sent m. absurd (Memᴰ.not-nil m);
  }
