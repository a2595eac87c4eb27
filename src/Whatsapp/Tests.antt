-- ===== src/Whatsapp/Tests.antt =====
-- Conversations and messages at concrete arguments.
use mathlib.Core.List.Perm
use amc_system.Base.{◌≡◌, refl, ◌≤◌, true, none, some, List, [], ◌∷◌}
use amc_system.Base.Int.{pos}
use amc_system.Base.Text.{text}
use amc_system.Kernel.Result as Result
use amc_system.Kernel.Aggregate.{run_all}
use amc_system.Whatsapp.ServiceWindow.{template_named, opted_out_of}
use amc_system.Whatsapp.Conversation.{
  Conversation, en, bot, Command, takes, gives_back, stops, starts_again, staff_chose, execute,
  opt_out, take_over, opt_back_in, bot_may_speak, may_send,
}
use amc_system.Whatsapp.Conversation.OptedOut.{stopped_until_start}
use amc_system.Whatsapp.Message.{
  queued, delivered, read, progress, Message, outbound, text_kind, advance_all,
}
use amc_system.Whatsapp.Message.Order.{callbacks_in_any_order}

abbrev talk : Conversation
talk = record {
  state = record {
    id = text "w1";
    phone = text "+97150";
    client_id = none;
    contact_id = none;
    profile_name = none;
    language = en;
    handling = bot;
    assigned_user_id = none;
    awaiting = none;
    unclear_streak = 0;
    opted_out_at = none;
    last_inbound_at = some (pos 1_000);
    last_outbound_at = none;
    created_at = pos 0;
  };
  pending = [];
}

-- A person takes over after a client asked to be left alone, and gives the conversation back.
abbrev calls : List Command
calls = takes (text "u1") staff_chose (pos 3_000) ∷ gives_back (pos 4_000) ∷ []

stopped_until_start_example :
    may_send
      (run_all execute calls (opt_out (pos 2_000) talk).1).state
      (template_named (text "reminder"))
      (pos 5_000)
    ≡ Result.err opted_out_of
stopped_until_start_example =
    stopped_until_start (pos 2_000) (pos 5_000) calls talk (template_named (text "reminder"))
      (refl, (refl, tt))

-- Asking to be messaged again takes the conversation from the person who has it.
taken_from_person :
    let a =
      run_all execute
        (stops (pos 2_000)
          ∷ takes (text "u1") staff_chose (pos 3_000)
          ∷ starts_again (pos 4_000)
          ∷ [])
        talk in
    (bot_may_speak a.state ≡ true) × (a.state.assigned_user_id ≡ some (text "u1"))
unfolding run_all execute opt_out take_over opt_back_in
taken_from_person = (refl, refl)

abbrev reminder : Message
reminder = record {
  id = text "m1";
  conversation_id = text "w1";
  direction = outbound;
  provider_message_id = none;
  kind = text_kind;
  body = some (text "Hello");
  template_name = none;
  media_id = none;
  media_mime_type = none;
  media_filename = none;
  document_id = none;
  status = queued;
  failure_reason = none;
  sent_by_user_id = none;
  contact_log_entry_id = none;
  occurred_at = pos 0;
}

callbacks_in_any_order_example :
    ((advance_all ((read, none) ∷ (delivered, none) ∷ []) reminder).status
      ≡ (advance_all ((delivered, none) ∷ (read, none) ∷ []) reminder).status)
    × (1 ≤ progress (advance_all ((read, none) ∷ (delivered, none) ∷ []) reminder).status)
callbacks_in_any_order_example =
    callbacks_in_any_order ((read, none) ∷ (delivered, none) ∷ [])
      ((delivered, none) ∷ (read, none) ∷ []) reminder (Perm.swap (delivered, none) (read, none) [])
