-- ===== src/Adaptive/Steps.antt =====
-- The percentage after one refresh (internal/adaptivequeue/controller.go).
use good_queue.Base.{
  ℕ, ◌≡◌, refl, Bool, true, false, not, Option, none, some, ℤ, pos, ◌≤ℤ◌, ◌+ℤ◌, ◌-ℤ◌, arith,
  if◌then◌else◌,
}
use good_queue.Adaptive.{
  Float, Reason, Config, Controller, RequestStats, PurchaseStats, validate_config, record_skipped,
  apply_target, refresh_purchases, refresh, target_percent, percentage,
}
use good_queue.Adaptive.Integers.{
  plus_parts, minus_parts, IsInt, bounded_step-near, bounded_step-between, clamp-range,
}

module _ (float : Float) where
  -- Between the minimum and the maximum of the configuration.
  abbrev pub Range : Config float → ℤ → Type 0
  Range config percent = (config.minimum_percent ≤ℤ percent) × (percent ≤ℤ config.maximum_percent)

  pub record Moved (c after : Controller float) : Type 0 where
    pub low : c.source -ℤ c.config.maximum_step_percent ≤ℤ after.source
    pub high : after.source ≤ℤ c.source +ℤ c.config.maximum_step_percent
    pub range : Range c.config after.source
    pub agrees : after.snapshot.current_percent ≡ after.source
    pub kept : after.config ≡ c.config

  Moved-if :
      (c x y : Controller float) (test : Bool)
      → Moved c x
      → Moved c y
      → Moved c (if test then x else y)
  Moved-if c x y true hx hy = hx
  Moved-if c x y false hx hy = hy

  step_positive :
      (config : Config float)
      → validate_config float config ≡ true
      → pos 0 ≤ℤ config.maximum_step_percent
  unfolding validate_config
  step_positive config h = ground arith

  -- A configuration whose percentages are below 2 ^ 62, so that no sum of two wraps around.
  abbrev pub Moderate : Config float → Type 0
  Moderate config = config.maximum_percent ≤ℤ pos 4611686018427387903

  step_small :
      (config : Config float)
      → validate_config float config ≡ true
      → config.maximum_step_percent ≤ℤ config.maximum_percent
  unfolding validate_config
  step_small config h = ground arith

  minimum_positive :
      (config : Config float)
      → validate_config float config ≡ true
      → pos 0 ≤ℤ config.minimum_percent
  unfolding validate_config
  minimum_positive config h = ground arith

  steps_are_ints :
      (config : Config float) (current : ℤ)
      → validate_config float config ≡ true
      → Moderate config
      → Range config current
      → IsInt (current +ℤ config.maximum_step_percent)
        × IsInt (current -ℤ config.maximum_step_percent)
  steps_are_ints config current h m range =
      let p = plus_parts current config.maximum_step_percent in
      let q = minus_parts current config.maximum_step_percent in
      let a = step_positive config h in
      let b = step_small config h in
      let c = minimum_positive config h in
      (
        (
          omega (arith, p, a, b, c, m, range.0, range.1),
          omega (arith, p, a, b, c, m, range.0, range.1),
        ),
        (
          omega (arith, q, a, b, c, m, range.0, range.1),
          omega (arith, q, a, b, c, m, range.0, range.1),
        ),
      )

  range_ordered :
      (config : Config float)
      → validate_config float config ≡ true
      → config.minimum_percent ≤ℤ config.maximum_percent
  unfolding validate_config
  range_ordered config h = ground arith

  Moved-skipped :
      (c : Controller float) (now : ℕ) (reason : Reason) (r s o p : float.F)
      → validate_config float c.config ≡ true
      → Range c.config c.source
      → Moved c (record_skipped float c now reason r s o p)
  unfolding record_skipped
  Moved-skipped c now reason r s o p h range =
      let n = step_positive c.config h in
      let plus = plus_parts c.source c.config.maximum_step_percent in
      let minus = minus_parts c.source c.config.maximum_step_percent in
      record {
        low = omega (arith, minus);
        high = omega (arith, plus);
        range = range;
        agrees = refl;
        kept = refl;
      }

  Moved-applied :
      (c : Controller float) (now : ℕ) (purchased total r s o p : float.F)
      → validate_config float c.config ≡ true
      → Moderate c.config
      → Range c.config c.source
      → Moved c (apply_target float c now (target_percent float c.config purchased total) r s o p)
  unfolding apply_target target_percent
  Moved-applied c now purchased total r s o p h m range =
      let n = step_positive c.config h in
      let goal = target_percent float c.config purchased total in
      let inside : Range c.config goal = clamp-range _ _ _ (range_ordered c.config h) in
      let ints = steps_are_ints c.config c.source h m range in
      let near = bounded_step-near c.source goal c.config.maximum_step_percent n ints.0 ints.1 in
      record {
        low = near.0;
        high = near.1;
        range =
            bounded_step-between c.source goal c.config.maximum_step_percent _ _ n ints.0 ints.1
              range.0 range.1 inside.0 inside.1;
        agrees = refl;
        kept = refl;
      }

  Moved-purchases :
      (c : Controller float) (now : ℕ) (r s : float.F) (stats : Option (PurchaseStats float))
      → validate_config float c.config ≡ true
      → Moderate c.config
      → Range c.config c.source
      → Moved c (refresh_purchases float c now r s stats)
  unfolding refresh_purchases
  Moved-purchases c now r s none h m range = Moved-skipped c now _ _ _ _ _ h range
  Moved-purchases c now r s (some stats) h m range =
      Moved-if c _ _ _ (Moved-skipped c now _ _ _ _ _ h range)
        (Moved-applied c now _ _ _ _ _ _ h m range)

  Moved-disabled :
      (c : Controller float)
      → validate_config float c.config ≡ true
      → Range c.config c.source
      → c.snapshot.current_percent ≡ c.source
      → Moved c c
  Moved-disabled c h range a =
      let n = step_positive c.config h in
      let plus = plus_parts c.source c.config.maximum_step_percent in
      let minus = minus_parts c.source c.config.maximum_step_percent in
      record {
        low = omega (arith, minus);
        high = omega (arith, plus);
        range = range;
        agrees = a;
        kept = refl;
      }

  -- A refresh under a valid configuration with percentages below 2 ^ 62, from a percentage in the configured range that the
  -- snapshot shows, leaves it in that range, moves it by one step at most, shows it in the snapshot
  -- and keeps the configuration; this whatever the metrics and the floating-point operations
  -- return.
  pub refresh-Moved :
      (c : Controller float) (now : ℕ) (requests : Option (RequestStats float))
      → (purchases : Option (PurchaseStats float)) → validate_config float c.config ≡ true
      → Moderate c.config
      → Range c.config c.source
      → c.snapshot.current_percent ≡ c.source
      → Moved c (refresh float c now requests purchases)
  unfolding refresh
  refresh-Moved c now none purchases h m range a =
      let zero = float.of_int (pos 0) in
      Moved-if c _ _ (not c.config.enabled) (Moved-disabled c h range a)
        (Moved-skipped c now Reason.metrics_unavailable zero zero zero zero h range)
  refresh-Moved c now (some stats) purchases h m range a =
      let zero = float.of_int (pos 0) in
      let success = percentage float stats.successful stats.total in
      Moved-if c _ _ (not c.config.enabled) (Moved-disabled c h range a) (
        Moved-if c _ _ (float.less stats.total (float.of_int c.config.minimum_http_requests))
          (Moved-skipped c now Reason.insufficient_http_samples stats.total success zero zero h
            range)
          (Moved-if c _ _ (float.less success c.config.minimum_http_success_percent)
            (Moved-skipped c now Reason.http_reliability_below_minimum stats.total success zero zero
              h range)
            (Moved-purchases c now stats.total success purchases h m range)))
