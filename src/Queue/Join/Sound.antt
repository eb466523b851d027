-- ===== src/Queue/Join/Sound.antt =====
-- Join and createAttempt (internal/repository/postgres/queue_attempt.go) on a consistent database.
use good_queue.Base.{
  ℕ, ◌+◌, ◌≡◌, refl, subst, sym, ◌∙◌, Bool, true, false, none, some, List, ◌==◌, arith, tally, All,
  Bool-cases, Option-cases, inl, inr, if◌then◌else◌,
}
use good_queue.Domain.{
  QueueAttempt, Result, ok, err, errors_is, wrapped, Sentinel, JoinQueueCommand,
}
use good_queue.Domain.Capacity.{next_queue_sequence}
use good_queue.Store.Rows.{Keyed}
use good_queue.Store.Tables.{Database, attempt_key}
use good_queue.Queue.Repository.{Repository, TransactionState}
use good_queue.Queue.Lookup.{reserves_stock, find_replay, find_active_attempt, is_effective_at}
use good_queue.Queue.Join.{
  insert_attempt, place_attempt, create_attempt, new_attempt, created_or_full, finish_join,
  join_enabled, join_new, join_expired, join_active, join_operation, join,
}
use good_queue.Queue.Keeps.{
  Holds, bind-Holds, Leaves, Keeps, with_locked_product-Consistent, locked-LockedReconciles,
}
use good_queue.Queue.Invariant.{has_deadline, Known, Valid, held}
use good_queue.Queue.Invariant.Ready.{Ready}
use good_queue.Queue.Invariant.Loading.{Consistent, Ready-Consistent}
use good_queue.Queue.Join.Insertion.{
  Placed, inserted-Consistent, Inserted, insert_attempt-Inserted, place_attempt-Placed,
}

kept-Valid :
    (tx tx' : Database) → tx'.attempts ≡ tx.attempts → tx'.outbox ≡ tx.outbox → Valid tx → Valid tx'
kept-Valid tx tx' attempts outbox v = record {
  keyed = subst (Keyed attempt_key) (sym attempts) v.keyed;
  timed = subst (All (λ a. has_deadline a ≡ true)) (sym attempts) v.timed;
  known =
      subst (λ rows. All (λ row. Known rows row.deduplication_key) tx'.outbox) (sym attempts)
        (subst (All (λ row. Known tx.attempts row.deduplication_key)) (sym outbox) v.known);
}

create_attempt-Keeps :
    (repository : Repository) (base : List QueueAttempt) (state : TransactionState)
    → (command : JoinQueueCommand) → Ready base state
    → state.product.id ≡ command.product_id
    → Keeps (create_attempt repository state command)
unfolding create_attempt has_deadline
create_attempt-Keeps repository base state command v same =
    let a = new_attempt state command (repository.uuid_new state.tx.issued) in
    bind-Holds Leaves (next_queue_sequence state.product.next_queue_sequence) _ (λ next h.
      bind-Holds Leaves (place_attempt repository state a next) _ (λ placed h'.
        let p =
          subst (Holds (Placed base state a)) h'
            (place_attempt-Placed repository base state a next v refl refl) in
        bind-Holds Leaves (insert_attempt placed.0 placed.1.tx) _ (λ tx h''.
          let i =
            subst (Holds (Inserted placed.0 placed.1.tx)) h''
              (insert_attempt-Inserted placed.0 placed.1.tx) in
          let c =
            inserted-Consistent base state.product.id state.product.allocatable_stock p.reserved
              p.sequence placed.0 placed.1.tx
              (kept-Valid state.tx placed.1.tx p.attempts p.outbox v.inside.valid) i.0 p.timed
              (p.product ∙ sym same) p.stored p.bounded
              (subst
                (λ rows.
                  held state.product.id rows + tally (reserves_stock placed.0.state) ≡ p.reserved)
                (sym p.attempts) (omega (arith, v.inside.covered, p.counts)))
              (λ q n.
                subst (λ rows. held q rows ≡ held q base) (sym p.attempts) (v.inside.others q n)) in
          let c' = subst Consistent i.1 c in
          record {
            valid = record {
              keyed = c'.valid.keyed;
              timed = c'.valid.timed;
              known = c'.valid.known;
            };
            distinct = c'.distinct;
            balanced = c'.balanced;
          })))

created_or_full-Keeps :
    (base : List QueueAttempt) (state : TransactionState)
    → (m : Result (QueueAttempt × TransactionState)) → Ready base state
    → Keeps m
    → Keeps (created_or_full state m)
created_or_full-Keeps base state (ok (a, s)) v k = k
created_or_full-Keeps base state (err e) v k = elim (Bool-cases (errors_is e Sentinel.queue_full)) [
  | inl y ↦ rw y (Ready-Consistent base state v)
  | inr n ↦ rw n tt
]

join_enabled-Keeps :
    (repository : Repository) (base : List QueueAttempt) (command : JoinQueueCommand)
    → (state : TransactionState) → Ready base state
    → state.product.id ≡ command.product_id
    → Keeps (join_enabled repository command state)
unfolding join_enabled
join_enabled-Keeps repository base command state v same =
    let r = locked-LockedReconciles repository base state v in
    elim (Bool-cases (state.product.allocatable_stock == 0)) [
      | inl e ↦ rw e (rw r.returns (Ready-Consistent base r.result r.ready))
      | inr e ↦ rw e (
          rw r.returns (
            created_or_full-Keeps base r.result (create_attempt repository r.result command) r.ready
              (create_attempt-Keeps repository base r.result command r.ready (r.id ∙ same))))
    ]

join_new-Keeps :
    (repository : Repository) (base : List QueueAttempt) (command : JoinQueueCommand)
    → (state : TransactionState) → Ready base state
    → state.product.id ≡ command.product_id
    → Keeps (join_new repository command state)
unfolding join_new
join_new-Keeps repository base command state v same = chosen state.product.queue_enabled
  where
    chosen :
        (enabled : Bool)
        → Keeps (
            if enabled
            then join_enabled repository command state
            else ok (finish_join none 0 false (some (wrapped Sentinel.queue_disabled)) state))
    chosen true = join_enabled-Keeps repository base command state v same
    chosen false = Ready-Consistent base state v

module _ (repository : Repository) (base : List QueueAttempt) (command : JoinQueueCommand) where
  after_active-Keeps :
      (state : TransactionState)
      → Ready base state
      → state.product.id ≡ command.product_id
      → Keeps (join_expired repository command state)
  unfolding join_expired
  after_active-Keeps state v same =
      elim (Option-cases (find_active_attempt state.attempts command.external_user_id)) [
        | inr (a, e) ↦ rw (e, join_expired) (Ready-Consistent base state v)
        | inl e ↦ rw (e, join_expired) (join_new-Keeps repository base command state v same)
      ]

  join_active-Keeps :
      (state : TransactionState) (active : QueueAttempt)
      → Ready base state
      → state.product.id ≡ command.product_id
      → Keeps (join_active repository command state active)
  unfolding join_active
  join_active-Keeps state active v same =
      let r = locked-LockedReconciles repository base state v in
      bind-Holds Leaves (is_effective_at active state.now) _ (λ effective h.
        elim (Bool-cases effective) [
          | inl e ↦ rw e (Ready-Consistent base state v)
          | inr e ↦ rw e (rw r.returns (after_active-Keeps r.result r.ready (r.id ∙ same)))
        ])

  join_operation-Keeps :
      (state : TransactionState)
      → Ready base state
      → state.product.id ≡ command.product_id
      → Keeps (join_operation repository command state)
  unfolding join_operation
  join_operation-Keeps state v same =
      elim (Option-cases
        (find_replay state.attempts command.external_user_id command.idempotency_key)) [
          | inr (a, e) ↦ rw (e, join_operation) (Ready-Consistent base state v)
          | inl e ↦
              elim (Option-cases (find_active_attempt state.attempts command.external_user_id)) [
                | inr (a, e') ↦ rw (e, e', join_operation) (join_active-Keeps state a v same)
                | inl e' ↦
                    rw (e, e', join_operation) (join_new-Keeps repository base command state v same)
              ]
        ]

-- Join leaves a consistent database consistent: whether it answers with an attempt or with an error, for
-- every product and user, and whatever ids uuid.New returns.
pub join-Consistent :
    (repository : Repository) (now : ℕ) (command : JoinQueueCommand) (db : Database)
    → Consistent db
    → Consistent ((join repository now command db).1)
unfolding join
join-Consistent repository now command db c =
    with_locked_product-Consistent now command.product_id
      (record {
        external_user_id = command.external_user_id;
        idempotency_key = command.idempotency_key;
        attempt_id = 0;
        include_latest_for_user = false;
      })
      (join_operation repository command) db c
      (λ state v same. join_operation-Keeps repository db.attempts command state v same)
