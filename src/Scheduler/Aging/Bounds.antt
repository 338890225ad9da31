-- ===== src/Scheduler/Aging/Bounds.antt =====
-- python/scheduler/aging.py: the range of aged priorities, and their order by the wait.
use ai_infrastructure_platfo.Prelude.{ap, ◌∙◌, ◌≡◌, arith}
use ai_infrastructure_platfo.Floats.{Floats, FloatOrder, fmin}
use ai_infrastructure_platfo.Floats.Laws.{Le, FloatArith, fmin_mono, fmin_bounds}
use ai_infrastructure_platfo.Scheduler.Aging.{
  AgingConfig, AgingPolicy, linear, logarithmic, exponential, create_aging, create_for,
  linear_boost, logarithmic_boost, exponential_boost, boost,
}

module _ {F : Type 0} ⦃fl : Floats F⦄ (fo : FloatOrder fl) (fa : FloatArith fl)
    (config : AgingConfig F) (factor_nonneg : Le (fl.lit 0 0) config.factor) where
  linear_mono : (a b : F) → Le a b → Le (linear_boost config a) (linear_boost config b)
  unfolding linear_boost
  linear_mono a b h = fa.mul_left config.factor a b factor_nonneg h

  logarithmic_mono :
      (a b : F) → Le a b → Le (logarithmic_boost config a) (logarithmic_boost config b)
  unfolding logarithmic_boost
  logarithmic_mono a b h =
      fa.mul_right (fl.lit 100 0) _ _ (fa.lit_nonneg 100 0)
        (fa.mul_left config.factor _ _ factor_nonneg (fa.log1p_mono a b h))

  exponential_mono :
      (a b : F) → Le a b → Le (exponential_boost config a) (exponential_boost config b)
  unfolding exponential_boost
  exponential_mono a b h = fa.mul_right (fl.lit 50 0) _ _ (fa.lit_nonneg 50 0) (
      fa.mul_left config.factor _ _ factor_nonneg (
        fa.sub_left (fl.lit 1 0) _ _
          (fa.exp_mono _ _ (fa.div_left 5 _ _ (omega arith) (fmin_mono fo (fl.lit 10 0) a b h)))))

  linear_nonneg : (wait : F) → Le (fl.lit 0 0) wait → Le (fl.lit 0 0) (linear_boost config wait)
  unfolding linear_boost
  linear_nonneg wait h = rw (fa.mul_zero config.factor) at (linear_mono (fl.lit 0 0) wait h)

  logarithmic_zero : logarithmic_boost config (fl.lit 0 0) ≡ fl.lit 0 0
  unfolding logarithmic_boost
  logarithmic_zero =
      ap (λ x. fl.mul (fl.mul config.factor x) (fl.lit 100 0)) fa.log1p_zero
      ∙ ap (λ x. fl.mul x (fl.lit 100 0)) (fa.mul_zero config.factor)
      ∙ fa.zero_mul (fl.lit 100 0)

  exp_term_zero :
      fl.sub (fl.exp (fl.div (fmin (fl.lit 0 0) (fl.lit 10 0)) (fl.lit 5 0))) (fl.lit 1 0)
      ≡ fl.lit 0 0
  exp_term_zero =
      rw (fa.lit_nonneg 10 0, fa.zero_div 5 (omega arith), fa.exp_zero) (fa.sub_self (fl.lit 1 0))

  exponential_zero : exponential_boost config (fl.lit 0 0) ≡ fl.lit 0 0
  unfolding exponential_boost
  exponential_zero =
      ap (λ x. fl.mul (fl.mul config.factor x) (fl.lit 50 0)) exp_term_zero
      ∙ ap (λ x. fl.mul x (fl.lit 50 0)) (fa.mul_zero config.factor)
      ∙ fa.zero_mul (fl.lit 50 0)

  logarithmic_nonneg :
      (wait : F) → Le (fl.lit 0 0) wait → Le (fl.lit 0 0) (logarithmic_boost config wait)
  logarithmic_nonneg wait h = rw logarithmic_zero at (logarithmic_mono (fl.lit 0 0) wait h)

  exponential_nonneg :
      (wait : F) → Le (fl.lit 0 0) wait → Le (fl.lit 0 0) (exponential_boost config wait)
  exponential_nonneg wait h = rw exponential_zero at (exponential_mono (fl.lit 0 0) wait h)

  capped :
      (base amount : F)
      → Le (fl.lit 0 0) config.max_boost
      → Le (fl.lit 0 0) amount
      → Le (fl.sub base config.max_boost) (fl.sub base (fmin amount config.max_boost))
        × Le (fl.sub base (fmin amount config.max_boost)) base
  capped base amount m h =
      let b = fmin_bounds fo (fl.lit 0 0) amount config.max_boost h m in
      (fa.sub_right base _ _ b.1, rw (fa.sub_zero base) at (fa.sub_right base _ _ b.0))

  bounds_for :
      (policy : AgingPolicy) (base wait : F)
      → Le (fl.lit 0 0) wait
      → Le (fl.lit 0 0) config.max_boost
      → Le (fl.sub base config.max_boost) (boost (create_for policy config) wait base)
        × Le (boost (create_for policy config) wait base) base
  unfolding boost create_for
  bounds_for linear base wait w m = capped base _ m (linear_nonneg wait w)
  bounds_for logarithmic base wait w m = capped base _ m (logarithmic_nonneg wait w)
  bounds_for exponential base wait w m = capped base _ m (exponential_nonneg wait w)

  -- Whatever the policy, the aged priority lies between the base priority less `max_boost` and the
  -- base priority, for a wait, a factor and a `max_boost` that are not negative.
  pub boost_bounds :
      (base wait : F)
      → Le (fl.lit 0 0) wait
      → Le (fl.lit 0 0) config.max_boost
      → Le (fl.sub base config.max_boost) (boost (create_aging config) wait base)
        × Le (boost (create_aging config) wait base) base
  unfolding create_aging
  boost_bounds = bounds_for config.policy

  mono_for :
      (policy : AgingPolicy) (base a b : F)
      → Le a b
      → Le (boost (create_for policy config) b base) (boost (create_for policy config) a base)
  unfolding boost create_for
  mono_for linear base a b h =
      fa.sub_right base _ _ (fmin_mono fo config.max_boost _ _ (linear_mono a b h))
  mono_for logarithmic base a b h =
      fa.sub_right base _ _ (fmin_mono fo config.max_boost _ _ (logarithmic_mono a b h))
  mono_for exponential base a b h =
      fa.sub_right base _ _ (fmin_mono fo config.max_boost _ _ (exponential_mono a b h))

  -- Whatever the policy, a request that has waited longer, from the same base priority and with a
  -- factor that is not negative, does not come later: its aged priority is not greater.
  pub boost_mono :
      (base a b : F)
      → Le a b
      → Le (boost (create_aging config) b base) (boost (create_aging config) a base)
  unfolding create_aging
  boost_mono = mono_for config.policy
