-- ===== src/Activity/Delivery.antt =====
-- That the server accepts what `run_hook` of apps/server/src/agent/runtime/activity.rs sends.
use devhatch.Activity.Sendable.{AreSendable, reports_for_hook-AreSendable}
use devhatch.Activity.Message.{
  Report, Envelope, Descriptor, Sequences, max_message_bytes, validate_envelope, set_sequence,
  is_absolute, validate_decoded, rejected,
}
use devhatch.Activity.Replay.{IsAuthentic, rejected_of_IsAuthentic}
use devhatch.Activity.Hook.{Json, string_at, hook_envelope, run_hook, reports_for_hook}
use devhatch.Prelude.{
  >>=-eq-some, ℕ, ◌<◌, String, ◌≡◌, refl, inr, Bool, true, false, Option, none, some, List, [], ◌∷◌,
  arith, if◌then◌else◌, ltb, leb, is_none_or, length, nat_eq, string_eq, option_eq, byte_len,
  is_empty, subst,
}

some_of_if_small :
    (b : Bool) (m message : List ℕ)
    → (if b then none else some m) ≡ some message
    → (b ≡ false) × (m ≡ message)
some_of_if_small b m message h = ground arith

leb_of_lt : (m n : ℕ) → m < n → leb n m ≡ false
leb_of_lt m n h = ground arith

hook_envelope-IsAuthentic :
    (j : Json) (d : Descriptor) (sequence : ℕ) (reports : List Report)
    → 0 < sequence
    → AreSendable reports
    → IsAuthentic d (hook_envelope j d sequence reports)
unfolding hook_envelope
hook_envelope-IsAuthentic j d sequence reports n r = record {
  version = refl;
  token = refl;
  session_id = refl;
  agent_id = refl;
  instance_id = inr refl;
  positive = n;
  some_reports = r.some_reports;
  few_reports = r.few_reports;
  valid = r.valid;
}

module _ (encode : Envelope → List ℕ) (decode : List ℕ → Option Envelope)
    (no_bytes : decode [] ≡ none) where
  encode-nonempty : (e : Envelope) (bytes : List ℕ) → decode bytes ≡ some e → is_empty bytes ≡ false
  encode-nonempty e [] h = cc (h, no_bytes)
  encode-nonempty e (b ∷ bytes) h = refl

  validate_sent :
      (e : Envelope) (d : Descriptor) (sequences : Sequences)
      → decode (encode e) ≡ some e
      → ltb max_message_bytes (length (encode e)) ≡ false
      → rejected e d ≡ false
      → sequences e.instance_id < e.sequence
      → validate_envelope decode (encode e) d sequences
        ≡ some (e, set_sequence sequences e.instance_id e.sequence)
  unfolding validate_envelope validate_decoded
  validate_sent e d sequences round_trip small ok newer =
      rw (encode-nonempty e (encode e) round_trip, small, round_trip, ok, leb_of_lt _ _ newer) refl

  -- If `serde_json` decodes what it encoded of the hook's envelope, and nothing from no bytes: the message that a hook of
  -- Codex or the Trae CLI sends for an event is accepted by the server that wrote its descriptor,
  -- with exactly the reports that the hook made, and its sequence number becomes the last one of the
  -- hook's instance. This holds when that number is greater than the last one, the session's
  -- name in the payload, after cleaning, has at most 256 bytes, and the paths in the payload, after
  -- cleaning, are absolute.
  pub validate_envelope-run_hook :
      (j : Json) (d : Descriptor) (event : String) (payload : j.Value) (sequence : ℕ)
      (sequences : Sequences) (message : List ℕ)
      → ((reports : List Report)
          → reports_for_hook j d.agent_id event payload ≡ some reports
          → decode (encode (hook_envelope j d sequence reports))
            ≡ some (hook_envelope j d sequence reports))
      → d.version ≡ 1
      → sequences d.hook_instance < sequence
      → is_none_or
          (string_at j payload ("session_id" ∷ "sessionId" ∷ []))
          (λ id. leb (byte_len id) 256)
        ≡ true
      → is_none_or (string_at j payload ("cwd" ∷ [])) is_absolute ≡ true
      → is_none_or (string_at j payload ("transcript_path" ∷ "transcriptPath" ∷ [])) is_absolute
        ≡ true
      → run_hook j encode d event payload sequence ≡ some message
      → (reports : List Report) × (reports_for_hook j d.agent_id event payload ≡ some reports)
        × (validate_envelope decode message d sequences
            ≡ some (
              hook_envelope j d sequence reports,
              set_sequence sequences d.hook_instance sequence,
            ))
  unfolding run_hook
  validate_envelope-run_hook j d event payload sequence sequences message round_trip v newer short
        cwd file h =
      let (reports, made, sent) = >>=-eq-some (reports_for_hook j d.agent_id event payload) _ h in
      let e = hook_envelope j d sequence reports in
      let (small, same) =
        some_of_if_small (ltb max_message_bytes (length (encode e))) (encode e) message sent in
      let authentic =
        hook_envelope-IsAuthentic j d sequence reports (omega arith)
          (reports_for_hook-AreSendable j d.agent_id event payload short cwd file reports made) in
      let accepted =
        validate_sent e d sequences (round_trip reports made) small
          (rejected_of_IsAuthentic e d v authentic) newer in
      let result = some (e, set_sequence sequences d.hook_instance sequence) in
      (reports, made, subst (λ m. validate_envelope decode m d sequences ≡ result) same accepted)
