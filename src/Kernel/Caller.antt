-- ===== src/Kernel/Caller.antt =====
-- packages/kernel/src/caller.ts: who asks for something, and what they may do.
use amc_system.Base.{Bool, List, any, Option}
use amc_system.Base.Text.{Text, eq_text}

pub record CallerLike : Type 0 where
  pub user_id : Text
  pub permissions : List Text
  pub roles : List Text
  pub display_name : Text
  pub session_id : Option Text

-- `heldBy(caller).has(permission)`
abbrev pub may : CallerLike → Text → Bool
may caller permission = any (λ held. eq_text held permission) caller.permissions
