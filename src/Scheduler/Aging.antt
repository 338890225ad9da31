-- ===== src/Scheduler/Aging.antt =====
-- python/scheduler/aging.py: the boost that a waiting request gets.
pub mod Bounds
use ai_infrastructure_platfo.Prelude.{ℕ}
use ai_infrastructure_platfo.Floats.{Floats, fmin}

pub data AgingPolicy : Type 0 where
  linear logarithmic exponential : AgingPolicy

pub record AgingConfig (F : Type 0) : Type 0 where
  pub policy : AgingPolicy
  pub factor : F
  pub max_boost : F
  pub base_priority : F

-- The three classes; each keeps the configuration.
pub data AgingFunction (F : Type 0) : Type 0 where
  linear_aging : AgingConfig F → AgingFunction F
  logarithmic_aging : AgingConfig F → AgingFunction F
  exponential_aging : AgingConfig F → AgingFunction F

module _ {F : Type 0} where
  unfoldable pub create_for : AgingPolicy → AgingConfig F → AgingFunction F
  create_for linear config = linear_aging config
  create_for logarithmic config = logarithmic_aging config
  create_for exponential config = exponential_aging config

  unfoldable pub create_aging : AgingConfig F → AgingFunction F
  unfolding create_for
  create_aging config = create_for config.policy config

module _ {F : Type 0} ⦃fl : Floats F⦄ where
  -- `AgingConfig()`
  unfoldable pub default_config : AgingConfig F
  default_config = record {
    policy = linear;
    factor = fl.lit 1 3;
    max_boost = fl.lit 500 0;
    base_priority = fl.lit 0 0;
  }

  unfoldable pub linear_boost : AgingConfig F → F → F
  linear_boost config wait_time_sec = fl.mul config.factor wait_time_sec

  unfoldable pub logarithmic_boost : AgingConfig F → F → F
  logarithmic_boost config wait_time_sec =
      fl.mul (fl.mul config.factor (fl.log1p wait_time_sec)) (fl.lit 100 0)

  unfoldable pub exponential_boost : AgingConfig F → F → F
  exponential_boost config wait_time_sec =
      fl.mul
        (fl.mul config.factor
          (fl.sub (fl.exp (fl.div (fmin wait_time_sec (fl.lit 10 0)) (fl.lit 5 0))) (fl.lit 1 0)))
        (fl.lit 50 0)

  -- The method `boost` of the three classes.
  unfoldable pub boost : AgingFunction F → F → F → F
  boost (linear_aging config) wait_time_sec base_priority =
      fl.sub base_priority (fmin (linear_boost config wait_time_sec) config.max_boost)
  boost (logarithmic_aging config) wait_time_sec base_priority =
      fl.sub base_priority (fmin (logarithmic_boost config wait_time_sec) config.max_boost)
  boost (exponential_aging config) wait_time_sec base_priority =
      fl.sub base_priority (fmin (exponential_boost config wait_time_sec) config.max_boost)
