-- ===== src/Expiration/DeadLetter/Replay.antt =====
-- A parked event, replayed.
use Prim.Native.String.{[], ◌∷◌}
use polyglot_ticketing_v.Base.{
  ℕ, suc, code, String, ◌≡◌, refl, sym, ◌∙◌, ap, true, false, not, some, [], ◌∷◌, ok, eq_iff,
  if◌then◌else◌, arith, Bool-cases, inl, inr,
}
use polyglot_ticketing_v.Base.Text.{append, count, every}
use polyglot_ticketing_v.Platform.MsgHeaders.{MsgHeadersApi, values_of, get}
use polyglot_ticketing_v.Expiration.Constants.{
  order_created_dead_letter_subject, order_created_subject,
}
use polyglot_ticketing_v.Expiration.DeadLetter.{
  header_key, is_line_break, replace_line_breaks, sanitize_header_value, is_left_out, StreamMessage,
  replay_message, without_dead_letter_headers,
}
use polyglot_ticketing_v.Expiration.DeadLetter.Copying.{without_dead_letter_headers_lem}

module _ (api : MsgHeadersApi) (decimal : ℕ → String) where
  open api use {MsgHdrs, entries, entries-set}

  -- What is replayed of a message, by its headers.
  abbrev replayed : ℕ → StreamMessage MsgHdrs → StreamMessage MsgHdrs
  replayed sequence message = record {
    subject = get api message.headers (header_key "Original-Subject");
    payload = message.payload;
    message_id = append "expiration-dlq-replay-v1:" (decimal sequence);
    headers = without_dead_letter_headers api decimal message.headers;
  }

  replay_message-ok :
      (sequence : ℕ) (message m : StreamMessage MsgHdrs)
      → replay_message api decimal sequence (some message) ≡ ok m
      → (message.subject ≡ order_created_dead_letter_subject)
        × (get api message.headers (header_key "Original-Subject") ≡ order_created_subject)
        × (m ≡ replayed sequence message)
  unfolding replay_message
  replay_message-ok sequence message m h = ground (
    arith,
    eq_iff message.subject order_created_dead_letter_subject,
    eq_iff (get api message.headers (header_key "Original-Subject")) order_created_subject,
  )

-- Whatever a replay publishes, it goes to the orders subject, comes from a message of the dead
-- letter subject with its payload, and under each key carries the values of that message, but none
-- under a key of the dead letter queue or of the message identity.
pub replay_message-safe :
    (api : MsgHeadersApi) (decimal : ℕ → String) (sequence : ℕ)
    (message : StreamMessage api.MsgHdrs) (m : StreamMessage api.MsgHdrs)
    → replay_message api decimal sequence (some message) ≡ ok m
    → (message.subject ≡ order_created_dead_letter_subject)
      × (m.subject ≡ order_created_subject)
      × (m.payload ≡ message.payload)
      × ((k : String)
          → values_of k (api.entries m.headers)
            ≡ (if is_left_out k then [] else values_of k (api.entries message.headers)))
replay_message-safe api decimal sequence message m h =
    let (dead, named, same) = replay_message-ok api decimal sequence message m h in
    (
      dead,
      ap (λ r. r.subject) same ∙ named,
      ap (λ r. r.payload) same,
      λ k.
          ap (λ r. values_of k (api.entries r.headers)) same
          ∙ without_dead_letter_headers_lem api decimal k message.headers,
    )

true-ne-false : true ≡ false → ⊥
true-ne-false e = cc

replace_line_breaks_lem :
    (s : String)
    → (every (λ c. not (is_line_break c)) (replace_line_breaks s) ≡ true)
      × (count (replace_line_breaks s) ≡ count s)
      × (every (λ c. not (is_line_break c)) s ≡ true → replace_line_breaks s ≡ s)
unfolding replace_line_breaks
replace_line_breaks_lem [] = (refl, refl, λ h. refl)
replace_line_breaks_lem (c ∷ s) =
    let (clean, long, same) = replace_line_breaks_lem s in
    elim (Bool-cases (is_line_break (code c))) [
      | inl line_break ↦ (
        rw (line_break, if◌then◌else◌) clean,
        ap suc long,
        λ h. absurd (true-ne-false (sym (rw line_break at h))),
      )
      | inr other ↦ (
        rw (other, if◌then◌else◌, other) clean,
        ap suc long,
        λ h. rw (other, if◌then◌else◌) (ap (λ (t : String). c ∷ t) (same (rw other at h))),
      )
    ]

-- A failure's text in a header has no line break and is as long as the text; a text that has been
-- through it stays as it is.
pub sanitize_header_value_lem :
    (s : String)
    → (every (λ c. not (is_line_break c)) (sanitize_header_value s) ≡ true)
      × (count (sanitize_header_value s) ≡ count s)
      × (sanitize_header_value (sanitize_header_value s) ≡ sanitize_header_value s)
unfolding sanitize_header_value
sanitize_header_value_lem s =
    let (clean, long, _) = replace_line_breaks_lem s in
    let (_, _, same) = replace_line_breaks_lem (replace_line_breaks s) in (clean, long, same clean)
