-- ===== src/Kernel/Rate.antt =====
-- packages/kernel/src/rate.ts: an hourly rate, and what time is worth at it.
use amc_system.Base.Int.{pos}
use amc_system.Kernel.Throws.{Throws, done, ◌>>◌, throw_if, negative_rate}
use amc_system.Kernel.Money.{Money, is_negative, scale_by_ratio}
use amc_system.Kernel.Duration.{Duration, seconds_per_hour}

pub record Rate : Type 0 where
  pub amount : Money

-- `Rate.perHour`
unfoldable pub per_hour : Money → Throws Rate
per_hour a = do throw_if (is_negative a) negative_rate; done (record { amount = a })

-- `amountFor`
unfoldable pub amount_for : Rate → Duration → Throws Money
amount_for r d = scale_by_ratio r.amount d.seconds (pos seconds_per_hour)
