-- ===== src/Queue/Transitions.antt =====
-- The transitions of one attempt: each is one guarded UPDATE and the same change of the copy in
-- memory (internal/repository/postgres/queue_attempt.go, from promoteWaitingAttempt to
-- transitionToCancelled). Versions are int64 counters that stay far below their bound.
use good_queue.Base.{
  ℕ, ◌+◌, ◌-◌, Bool, ◌&&◌, none, some, List, [], ◌∷◌, ltb, ◌==◌, if◌then◌else◌, Bytes, count_where,
}
use good_queue.Domain.{
  QueueAttempt, QueueAttemptState, Sentinel, Error, wrapped, Result, ok, err, ◌>>=◌, AttemptId,
}
use good_queue.Store.Rows.{update_rows}
use good_queue.Store.Tables.{
  Database, OutboxRow, OutboxPayload, DeduplicationKey, key_eq, invited_key, invitation_payload,
  OutboxStatus, EventType, update_attempt, ProductRow,
}
use good_queue.Queue.Repository.{
  Repository, TransactionState, terminal_sold_out, terminal_cancelled,
}
use good_queue.Queue.Lookup.{reserves_stock}

-- The columns that a terminal transition sets, in the row and in memory.
abbrev pub mark_terminal : ℕ → QueueAttemptState → Bytes → QueueAttempt → QueueAttempt
mark_terminal now state reason a = record a {
  state = state;
  terminal_at = some now;
  terminal_reason = some reason;
  terminal_message = some reason;
  updated_at = now;
  version = a.version + 1;
}

abbrev pub mark_invited : ℕ → ℕ → ℕ → QueueAttempt → QueueAttempt
mark_invited now deadline version a = record a {
  state = QueueAttemptState.invited;
  invited_at = some now;
  invitation_deadline = some deadline;
  updated_at = now;
  version = version;
}

abbrev pub mark_checkout : ℕ → ℕ → QueueAttempt → QueueAttempt
mark_checkout now deadline a = record a {
  state = QueueAttemptState.checkout;
  checkout_started_at = some now;
  checkout_deadline = some deadline;
  updated_at = now;
  version = a.version + 1;
}

unfoldable pub transition_to_expired :
    Database → QueueAttempt → ℕ → QueueAttemptState → Bytes → Result (QueueAttempt × Database)
transition_to_expired tx attempt now state reason = do
  tx' ← update_attempt attempt.id attempt.state attempt.version (mark_terminal now state reason) tx
  ok (mark_terminal now state reason attempt, tx')

unfoldable pub transition_waiting_to_sold_out :
    Database → QueueAttempt → ℕ → Result (QueueAttempt × Database)
transition_waiting_to_sold_out tx attempt now = do
  let sold_out = mark_terminal now QueueAttemptState.sold_out terminal_sold_out
  tx' ← update_attempt attempt.id QueueAttemptState.waiting attempt.version sold_out tx
  ok (sold_out attempt, tx')

-- INSERT INTO notification_outbox; `deduplication_key` is unique. The id is a new UUID.
unfoldable pub insert_outbox :
    Repository
    → AttemptId
    → EventType
    → DeduplicationKey
    → OutboxPayload
    → ℕ
    → Database
    → Result Database
insert_outbox repository attempt event key payload now tx =
    if count_where (λ row. key_eq row.deduplication_key key) tx.outbox == 0
    then ok (record tx { outbox = row ∷ tx.outbox; issued = tx.issued + 1 })
    else err (wrapped Sentinel.conflict)
  where
    row : OutboxRow
    row = record {
      id = repository.uuid_new tx.issued;
      attempt_id = some attempt;
      event_type = event;
      deduplication_key = key;
      payload = payload;
      payload_hash = repository.payload_sum payload;
      status = OutboxStatus.pending;
      attempt_count = 0;
      available_at = now;
      lease_until = none;
      lease_token = none;
      lease_generation = 0;
      created_at = now;
      updated_at = now;
      sent_at = none;
      last_error = none;
    }

unfoldable pub promote_waiting_attempt :
    Repository → ℕ → QueueAttempt → Database → Result (QueueAttempt × Database)
promote_waiting_attempt repository now attempt tx = do
  let deadline = now + repository.invitation_ttl
  let version = attempt.version + 1
  let promoted = mark_invited now deadline version
  tx' ← update_attempt attempt.id QueueAttemptState.waiting attempt.version promoted tx
  tx'' ←
      insert_outbox repository attempt.id EventType.queue_invited (invited_key attempt.id version)
        (invitation_payload attempt.id attempt.product_id deadline) now tx'
  ok (promoted attempt, tx'')

unfoldable pub transition_to_checkout :
    TransactionState → QueueAttempt → ℕ → Result (QueueAttempt × TransactionState)
transition_to_checkout state attempt deadline = do
  let started = mark_checkout state.now deadline
  tx' ← update_attempt attempt.id QueueAttemptState.invited attempt.version started state.tx
  ok (started attempt, record state { tx = tx' })

-- A guarded UPDATE of products; `e` is the error of a row count other than one.
unfoldable pub update_product :
    (ProductRow → Bool) → (ProductRow → ProductRow) → Error → Database → Result Database
update_product hit set e tx =
    if count_where hit tx.products == 1
    then ok (record tx { products = update_rows hit set tx.products })
    else err e

-- UPDATE products SET reserved=reserved-1 WHERE id AND reserved=$3 AND reserved > 0
unfoldable pub release_reservation : TransactionState → Error → Result TransactionState
release_reservation state e = do
  tx' ←
      update_product
        (λ row.
          row.id == state.product.id
          && (row.reserved == state.product.reserved && ltb 0 row.reserved))
        (λ row. record row { reserved = row.reserved - 1; updated_at = state.now }) e state.tx
  ok (record state {
    tx = tx';
    product = record (state.product) { reserved = state.product.reserved - 1 };
  })

-- The loop that writes the cancelled attempt back into `state.attempts`.
unfoldable pub replace_attempt : QueueAttempt → List QueueAttempt → List QueueAttempt
replace_attempt attempt [] = []
replace_attempt attempt (a ∷ rest) =
    if a.id == attempt.id then attempt ∷ rest else a ∷ replace_attempt attempt rest

unfoldable pub transition_to_cancelled :
    TransactionState → QueueAttempt → Result (QueueAttempt × TransactionState)
transition_to_cancelled state attempt = do
  let set = mark_terminal state.now QueueAttemptState.cancelled terminal_cancelled
  tx' ← update_attempt attempt.id attempt.state attempt.version set state.tx
  state' ←
      (if reserves_stock attempt.state
        then release_reservation (record state { tx = tx' }) (wrapped Sentinel.conflict)
        else ok (record state { tx = tx' }))
  ok (set attempt, record state' { attempts = replace_attempt (set attempt) state'.attempts })
