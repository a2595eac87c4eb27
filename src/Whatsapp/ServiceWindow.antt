-- ===== src/Whatsapp/ServiceWindow.antt =====
-- packages/modules/whatsapp/domain/service-window.ts: the twenty-four hours in which free text may be
-- sent.
use amc_system.Base.{Option, none, some, if◌then◌else◌}
use amc_system.Base.Int.{ℤ, pos, ◌+ℤ◌, ◌-ℤ◌, ltb_ℤ}
use amc_system.Base.Text.{Text}
use amc_system.Kernel.Result.{Result, ok, err}
use amc_system.Kernel.Duration.{Instant}

-- `SERVICE_WINDOW_MS`
abbrev pub service_window : ℤ
service_window = pos 86_400_000

pub data WindowState : Type 0 where
  open_ closed_ : WindowState

-- `windowStateAt`
unfoldable pub window_state_at : Option Instant → Instant → WindowState
window_state_at none now = closed_
window_state_at (some inbound) now =
    if ltb_ℤ (now -ℤ inbound) service_window then open_ else closed_

-- `windowClosesAt`
abbrev pub window_closes_at : Option Instant → Option Instant
window_closes_at none = none
window_closes_at (some inbound) = some (inbound +ℤ service_window)

pub data OutboundShape : Type 0 where
  text_of template_named : Text → OutboundShape

pub data WhatsappConflict : Type 0 where
  window_closed not_e164 contact_without_client not_with_a_person : WhatsappConflict
  attached_already opted_out_of is_closed nothing_carried nothing_said : WhatsappConflict

-- `mayBeSent`
unfoldable pub may_be_sent :
    OutboundShape → Option Instant → Instant → Result WhatsappConflict (Unit {0})
may_be_sent (template_named name) inbound now = ok tt
may_be_sent (text_of body) inbound now = elim (window_state_at inbound now) [
  | open_ ↦ ok tt
  | closed_ ↦ err window_closed
]
