-- ===== src/Expiration/Processor.antt =====
-- The worker of the queue and what it publishes:
-- apps/expiration/src/expiration/expiration.processor.ts and expiration.publisher.ts.
pub mod Completion
use polyglot_ticketing_v.Base.{String, Bool, List, [], ◌∷◌, Result, ok, err, str_eq, if◌then◌else◌}
use polyglot_ticketing_v.Value.{Value, obj, str, entry, end}
use polyglot_ticketing_v.Expiration.Constants.{expiration_job_name, expiration_complete_subject}
use polyglot_ticketing_v.Expiration.Effects.{
  Failure, other, Job, Message, published, observed, Run, perform, throw, ◌>>=◌, ◌>>◌, catching,
}

abbrev pub completion_message : String → Message
completion_message order_id = record {
  subject = expiration_complete_subject;
  event_id = order_id;
  order_id = order_id;
  message_id = order_id;
}

-- `jetStream.publish` is third-party: its outcome is an argument.
unfoldable pub publish_expiration_complete : Result Value (Unit {0}) → String → Run (Unit {0})
publish_expiration_complete publish order_id =
    perform (published (completion_message order_id)) publish

abbrev pub observe : String → Run (Unit {0})
observe outcome = (ok tt, observed outcome ∷ [])

-- `new Error('Unsupported expiration job: ...')`; what follows the colon is left out.
abbrev pub unsupported_job : Failure
unsupported_job = other (obj (entry "message" (str "Unsupported expiration job") end))

unfoldable pub process : Result Value (Unit {0}) → Job → Run (Unit {0})
unfolding publish_expiration_complete
process publish job =
    if str_eq job.name expiration_job_name
    then catching (do publish_expiration_complete publish job.order_id; observe "success")
        (λ failure. do observe "retry"; throw failure)
    else (do observe "unsupported"; throw unsupported_job)
