-- ===== src/Domain/Parsing/RoundTrip.antt =====
-- Parsing what has been parsed (internal/pkg/domain/payment.go and queue_attempt.go).
use good_queue.Base.{
  ℕ, ◌≡◌, refl, subst, ◌||◌, Bool, true, false, not, some, arith, ltb, Bytes, bytes_eq, length,
  is_empty, Bool-cases, inl, inr,
}
use good_queue.Domain.Errors.{ok, ◌>>◌, guard, bind-ok}
use good_queue.Domain.Attempt.{AttemptId, IdempotencyKey}
use good_queue.Domain.Payment.{
  Text, PaymentCommand, PaymentOutcome, payment_succeeded, payment_failed, outcome_text,
  normalize_required_payment_field, normalize_reference, parse_attempt_id, parse_outcome,
  parse_payment_command, max_payment_provider_length, max_payment_event_id_length,
  max_payment_reference_length, invalid_input_error,
}
use good_queue.Domain.Parsing.{
  parse_idempotency_key, matches_key_pattern, max_idempotency_key_length,
}

-- What strings.TrimSpace, strings.ToLower and uuid.Parse do: a trimmed string has no more to trim, a UUID
-- and the two outcomes are trimmed and in lower case, and a UUID that is printed is parsed again.
pub record Documented (text : Text) : Type 0 where
  pub trims : (b : Bytes) → text.trim_space (text.trim_space b) ≡ text.trim_space b
  pub trimmed_uuid : (id : ℕ) → text.trim_space (text.uuid_string id) ≡ text.uuid_string id
  pub reads_uuid : (id : ℕ) → text.parse_uuid (text.uuid_string id) ≡ some id
  pub trimmed_outcome : (o : PaymentOutcome) → text.trim_space (outcome_text o) ≡ outcome_text o
  pub lower_outcome : (o : PaymentOutcome) → text.to_lower (outcome_text o) ≡ outcome_text o

-- An idempotency key that has been parsed is parsed to itself.
pub parse_idempotency_key-again :
    (text : Text) (raw : Bytes) (key : IdempotencyKey)
    → Documented text
    → parse_idempotency_key text raw ≡ ok key
    → parse_idempotency_key text key ≡ ok key
unfolding parse_idempotency_key
parse_idempotency_key-again text raw key d h =
    let t = text.trim_space raw in
    elim (Bool-cases (ltb max_idempotency_key_length (length t) || not (matches_key_pattern t))) [
      | inl bad ↦ let h' = rw bad at h in ground arith
      | inr good ↦
          let h' = rw good at h in
          let same : t ≡ key = cc in
          subst (λ k. parse_idempotency_key text k ≡ ok k) same (rw (d.trims raw, good) refl)
    ]

normalize_required-again :
    (text : Text) (raw field : Bytes) (most : ℕ)
    → Documented text
    → normalize_required_payment_field text raw most ≡ ok field
    → normalize_required_payment_field text field most ≡ ok field
unfolding normalize_required_payment_field
normalize_required-again text raw field most d h =
    let t = text.trim_space raw in
    let c = normalized (not (is_empty t)) (not (ltb most (length t))) t field h in
    subst (λ f. normalize_required_payment_field text f most ≡ ok f) c.2
      (rw (d.trims raw) (rw (c.0, c.1) refl))
  where
    normalized :
        (b c : Bool) (t f : Bytes)
        → (do (guard b invalid_input_error); (guard c invalid_input_error); ok t) ≡ ok f
        → (b ≡ true) × (c ≡ true) × (t ≡ f)
    normalized true true t f h = (refl, refl, cc)
    normalized true false t f h = ground arith
    normalized false c t f h = ground arith

normalize_reference-again :
    (text : Text) (o : PaymentOutcome) (raw field : Bytes)
    → Documented text
    → normalize_reference text o raw ≡ ok field
    → normalize_reference text o field ≡ ok field
unfolding normalize_reference
normalize_reference-again text payment_failed raw field d h = h
normalize_reference-again text payment_succeeded raw field d h =
    unfold normalize_required_payment_field in
    normalize_required-again text raw field max_payment_reference_length d h

parse_outcome-again :
    (text : Text) (o : PaymentOutcome)
    → Documented text
    → parse_outcome text (outcome_text o) ≡ ok o
unfolding parse_outcome bytes_eq
parse_outcome-again text payment_succeeded d =
    rw (d.trimmed_outcome payment_succeeded, d.lower_outcome payment_succeeded)
      (unfold outcome_text in refl)
parse_outcome-again text payment_failed d =
    rw (d.trimmed_outcome payment_failed, d.lower_outcome payment_failed)
      (unfold outcome_text in refl)

-- What parse_payment_command returns when its five parts parse.
parses :
    (text : Text) (provider event_id id_text outcome_raw reference : Bytes)
    → {p e r : Bytes} {i : AttemptId} {o : PaymentOutcome}
    → normalize_required_payment_field text provider max_payment_provider_length ≡ ok p
    → normalize_required_payment_field text event_id max_payment_event_id_length ≡ ok e
    → parse_attempt_id text (text.trim_space id_text) ≡ ok i
    → parse_outcome text outcome_raw ≡ ok o
    → normalize_reference text o reference ≡ ok r
    → parse_payment_command text provider event_id id_text outcome_raw reference
      ≡ ok (record {
        provider = p;
        event_id = e;
        attempt_id = i;
        outcome = o;
        payment_reference = r;
      })
unfolding parse_payment_command
parses text provider event_id id_text outcome_raw reference hp he hi ho hr =
    rw hp (rw he (rw hi (rw ho (rw hr refl))))

parse_attempt_id-again :
    (text : Text) (id : AttemptId)
    → Documented text
    → parse_attempt_id text (text.trim_space (text.uuid_string id)) ≡ ok id
unfolding parse_attempt_id
parse_attempt_id-again text id d =
    rw (d.trimmed_uuid id) (rw (d.reads_uuid id, parse_attempt_id) refl)

-- The fields of a payment command that has been parsed, printed with UUID.String and the name of the
-- outcome, are parsed to the same command, given what the documentation of the string and UUID
-- functions says.
pub parse_payment_command-again :
    (text : Text) (provider event_id attempt_id outcome payment_reference : Bytes)
    → (command : PaymentCommand) → Documented text
    → parse_payment_command text provider event_id attempt_id outcome payment_reference ≡ ok command
    → parse_payment_command text command.provider command.event_id
        (text.uuid_string command.attempt_id)
        (outcome_text command.outcome)
        command.payment_reference
      ≡ ok command
unfolding parse_payment_command
parse_payment_command-again text provider event_id attempt_id outcome reference command d h =
    let a =
      bind-ok (normalize_required_payment_field text provider max_payment_provider_length) _ command
        h in
    let b =
      bind-ok (normalize_required_payment_field text event_id max_payment_event_id_length) _ command
        a.2 in
    let i = bind-ok (parse_attempt_id text (text.trim_space attempt_id)) _ command b.2 in
    let o = bind-ok (parse_outcome text outcome) _ command i.2 in
    let r = bind-ok (normalize_reference text o.0 reference) _ command o.2 in
    subst
      (λ c.
        parse_payment_command text c.provider c.event_id (text.uuid_string c.attempt_id)
          (outcome_text c.outcome) c.payment_reference
        ≡ ok c)
      (ok-injective r.2)
      (parses text a.0 b.0 (text.uuid_string i.0) (outcome_text o.0) r.0
        (normalize_required-again text provider a.0 max_payment_provider_length d a.1)
        (normalize_required-again text event_id b.0 max_payment_event_id_length d b.1)
        (parse_attempt_id-again text i.0 d) (parse_outcome-again text o.0 d)
        (normalize_reference-again text o.0 reference r.0 d r.1))
  where
    ok-injective : {a b : PaymentCommand} → ok a ≡ ok b → a ≡ b
    ok-injective e = cc
