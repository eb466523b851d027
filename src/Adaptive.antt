-- ===== src/Adaptive.antt =====
-- internal/adaptivequeue/controller.go: the controller that adapts the waiting-buffer percentage.
-- float64 and its operations are parameters, in the record `Float`.
use good_queue.Base.{
  ℕ, ◌+◌, ◌-◌, ◌%◌, Bool, true, false, ◌||◌, ◌&&◌, not, Option, none, some, ltb, leb, ◌==◌,
  if◌then◌else◌, ℤ, pos, negsuc, ltb_ℤ, eq_ℤ, ◌+ℤ◌, ◌-ℤ◌,
}
use good_queue.Domain.{Error, wrapped, Sentinel, Result, ok, err, ◌>>=◌, ◌>>◌, guard}
pub mod Integers
pub mod Steps

-- float64: what the controller computes with it.
pub record Float : Type 1 where
  pub F : Type 0
  pub of_int : ℤ → F
  pub less : F → F → Bool
  pub plus : F → F → F
  pub minus : F → F → F
  pub times : F → F → F
  pub divide : F → F → F
  pub round : F → F
  pub ceil_int : F → ℤ

pub data Reason : Type 0 where
  disabled not_evaluated applied stable metrics_unavailable insufficient_http_samples : Reason
  http_reliability_below_minimum insufficient_purchase_samples : Reason

-- int has 64 bits: a sum out of its range wraps around.
unfoldable pub wrap_int : ℤ → ℤ
wrap_int (pos n) =
    let r = n % 18446744073709551616 in
    if ltb r 9223372036854775808 then pos r else negsuc (18446744073709551615 - r)
wrap_int (negsuc n) =
    let r = n % 18446744073709551616 in
    if ltb r 9223372036854775808 then negsuc r else pos (18446744073709551615 - r)

unfoldable pub bounded_step : ℤ → ℤ → ℤ → ℤ
bounded_step current target maximum_step =
    let up = wrap_int (current +ℤ maximum_step) in
    let down = wrap_int (current -ℤ maximum_step) in
    if ltb_ℤ up target then up else if ltb_ℤ target down then down else target

unfoldable pub clamp : ℤ → ℤ → ℤ → ℤ
clamp value minimum maximum =
    if ltb_ℤ value minimum then minimum else if ltb_ℤ maximum value then maximum else value

module _ (float : Float) where
  open float use {F, of_int, less, plus, minus, times, divide, round, ceil_int}

  pub record Config : Type 0 where
    pub enabled : Bool
    pub base_percent : ℤ
    pub minimum_percent : ℤ
    pub maximum_percent : ℤ
    pub maximum_step_percent : ℤ
    pub interval : ℤ
    pub window : ℤ
    pub minimum_http_requests : ℤ
    pub minimum_checkout_outcomes : ℤ
    pub minimum_http_success_percent : F

  -- The fields of Snapshot that change; the others repeat the configuration.
  pub record Snapshot : Type 0 where
    pub current_percent : ℤ
    pub target_percent : Option ℤ
    pub http_requests : F
    pub http_success_percent : F
    pub checkout_outcomes : F
    pub purchase_success_percent : F
    pub reason : Reason
    pub evaluated_at : Option ℕ
    pub applied_at : Option ℕ

  -- The controller with the value of its PercentSource.
  pub record Controller : Type 0 where
    pub config : Config
    pub source : ℤ
    pub snapshot : Snapshot

  pub record RequestStats : Type 0 where
    pub successful : F
    pub total : F

  pub record PurchaseStats : Type 0 where
    pub purchased : F
    pub cancelled : F
    pub checkout_expired : F

  -- validateConfig; every failure is an error of no sentinel.
  unfoldable pub validate_config : Config → Bool
  validate_config config =
      not (
        ltb_ℤ config.base_percent (pos 0)
        || ltb_ℤ config.minimum_percent (pos 0)
        || ltb_ℤ config.maximum_percent (pos 0)
        || ltb_ℤ config.base_percent config.minimum_percent
        || ltb_ℤ config.maximum_percent config.base_percent)
      && (not (
            not (ltb_ℤ (pos 0) config.maximum_step_percent)
            || ltb_ℤ config.maximum_percent config.maximum_step_percent)
          && (not (not (ltb_ℤ (pos 0) config.interval) || not (ltb_ℤ (pos 0) config.window))
              && (not (
                    not (ltb_ℤ (pos 0) config.minimum_http_requests)
                    || not (ltb_ℤ (pos 0) config.minimum_checkout_outcomes))
                  && not (
                      less config.minimum_http_success_percent (of_int (pos 0))
                      || less (of_int (pos 100)) config.minimum_http_success_percent))))

  -- NewController, with a percent source and, when enabled, a metrics reader.
  unfoldable pub new_controller : Config → ℤ → Bool → Option Controller
  new_controller config initial has_metrics =
      if not (validate_config config) || (config.enabled && not has_metrics)
      then none
      else some (record {
        config = config;
        source = initial;
        snapshot = record {
          current_percent = initial;
          target_percent = none;
          http_requests = of_int (pos 0);
          http_success_percent = of_int (pos 0);
          checkout_outcomes = of_int (pos 0);
          purchase_success_percent = of_int (pos 0);
          reason = if config.enabled then Reason.not_evaluated else Reason.disabled;
          evaluated_at = none;
          applied_at = none;
        };
      })

  unfoldable pub percentage : F → F → F
  percentage successful total =
      if not (less (of_int (pos 0)) total)
      then of_int (pos 0)
      else divide (round (times (divide successful total) (of_int (pos 10000)))) (of_int (pos 100))

  unfoldable pub target_percent : Config → F → F → ℤ
  target_percent config purchased total =
      clamp
        (if less (of_int (pos 0)) purchased
          then ceil_int (divide (times (of_int (pos 100)) (minus total purchased)) purchased)
          else config.maximum_percent)
        config.minimum_percent config.maximum_percent

  unfoldable pub record_skipped : Controller → ℕ → Reason → F → F → F → F → Controller
  record_skipped c evaluated_at reason requests success outcomes purchase_success = record c {
    snapshot = record (c.snapshot) {
      current_percent = c.source;
      target_percent = none;
      http_requests = requests;
      http_success_percent = success;
      checkout_outcomes = outcomes;
      purchase_success_percent = purchase_success;
      reason = reason;
      evaluated_at = some evaluated_at;
    };
  }

  -- The part of Refresh after the last guard.
  unfoldable pub apply_target : Controller → ℕ → ℤ → F → F → F → F → Controller
  apply_target c evaluated_at target requests success outcomes purchase_success =
      let next = bounded_step c.source target c.config.maximum_step_percent in
      let moved = not (eq_ℤ next c.source) in
      record c {
        source = next;
        snapshot = record {
          current_percent = next;
          target_percent = some target;
          http_requests = requests;
          http_success_percent = success;
          checkout_outcomes = outcomes;
          purchase_success_percent = purchase_success;
          reason = if moved then Reason.applied else Reason.stable;
          evaluated_at = some evaluated_at;
          applied_at = if moved then some evaluated_at else c.snapshot.applied_at;
        };
      }

  -- From the purchase statistics on.
  unfoldable pub refresh_purchases : Controller → ℕ → F → F → Option PurchaseStats → Controller
  refresh_purchases c now requests success none =
      record_skipped c now Reason.metrics_unavailable requests success (of_int (pos 0))
        (of_int (pos 0))
  refresh_purchases c now requests success (some stats) =
      let outcomes = plus (plus stats.purchased stats.cancelled) stats.checkout_expired in
      let purchase_success = percentage stats.purchased outcomes in
      if less outcomes (of_int c.config.minimum_checkout_outcomes)
      then record_skipped c now Reason.insufficient_purchase_samples requests success outcomes
          purchase_success
      else apply_target c now (target_percent c.config stats.purchased outcomes) requests success
          outcomes purchase_success

  -- Refresh, given the time and what the two metrics queries return (`none` is an error). The
  -- refresh mutex makes one call a single step.
  unfoldable pub refresh : Controller → ℕ → Option RequestStats → Option PurchaseStats → Controller
  refresh c now none purchases =
      if not c.config.enabled
      then c
      else record_skipped c now Reason.metrics_unavailable (of_int (pos 0)) (of_int (pos 0))
          (of_int (pos 0)) (of_int (pos 0))
  refresh c now (some stats) purchases =
      let success = percentage stats.successful stats.total in
      if not c.config.enabled
      then c
      else if less stats.total (of_int c.config.minimum_http_requests)
      then record_skipped c now Reason.insufficient_http_samples stats.total success
          (of_int (pos 0)) (of_int (pos 0))
      else if less success c.config.minimum_http_success_percent
      then record_skipped c now Reason.http_reliability_below_minimum stats.total success
          (of_int (pos 0)) (of_int (pos 0))
      else refresh_purchases c now stats.total success purchases
