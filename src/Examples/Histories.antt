-- ===== src/Examples/Histories.antt =====
-- The theorems on whole databases at concrete inputs.
use good_queue.Base.{[], ◌∷◌, false}
use good_queue.Store.Tables.{Database}
use good_queue.Queue.Join.{join}
use good_queue.Queue.Join.Sound.{join-Consistent}
use good_queue.Queue.Stock.{adjust_stock}
use good_queue.Queue.Stock.Sound.{adjust_stock-Consistent}
use good_queue.Queue.Invariant.Loading.{Consistent}
use good_queue.Queue.Current.{find_current}
use good_queue.Payment.Claim.{claim_payment}
use good_queue.Payment.Process.{process_payment, process_claim_for_product}
use good_queue.Payment.Whole.{process_payment-Consistent}
use good_queue.System.{joins, finds_current, claims_payment, processes_payment, start, later}
use good_queue.System.Consistency.{History-Consistent}
use good_queue.Examples.Fixture.{
  repository, text, payment, undisturbed, first_claim, busy_database, join_command, too_much,
}
use good_queue.Examples.Witnesses.{busy_database-Consistent}

join-Consistent_example : Consistent ((join repository 5 (join_command 9) busy_database).1)
join-Consistent_example =
    join-Consistent repository 5 (join_command 9) busy_database busy_database-Consistent

adjust_stock-Consistent_example : Consistent ((adjust_stock repository 5 too_much busy_database).1)
adjust_stock-Consistent_example =
    adjust_stock-Consistent repository 5 too_much busy_database busy_database-Consistent

process_payment-Consistent_example :
    Consistent ((process_payment repository text undisturbed payment busy_database).1)
process_payment-Consistent_example =
    process_payment-Consistent repository text undisturbed payment busy_database (λ n db c. c)
      busy_database-Consistent

-- The payment of attempt 1 is claimed, user 9 joins and user 2 looks at the attempt, and only then is the
-- payment processed.
abbrev interleaved : Database
interleaved =
    (process_claim_for_product repository 8 7 first_claim false
      (find_current repository 7 7 (2 ∷ [])
        (join repository 6 (join_command 9)
          (claim_payment repository text 5 payment busy_database).1).1).1).1

History-Consistent_example : Consistent interleaved
History-Consistent_example =
    History-Consistent repository text busy_database interleaved busy_database-Consistent (
      later
        (later (later (later start (claims_payment 5 payment)) (joins 6 (join_command 9)))
          (finds_current 7 7 (2 ∷ [])))
        (processes_payment 8 7 first_claim false))
