-- ===== src/Whatsapp/Conversation.antt =====
-- packages/modules/whatsapp/domain/conversation.ts: who answers a client, and what may be sent.
pub mod OptedOut
use amc_system.Base.{
  ℕ, suc, ◌+◌, Bool, true, false, not, ◌&&◌, Option, none, some, List, [], ◌∷◌, is_some, leb, ◌==◌,
  if◌then◌else◌,
}
use amc_system.Base.Text.{Text, eq_text, is_empty}
use amc_system.Kernel.Result as Result
use amc_system.Kernel.Result.{Result}
use amc_system.Kernel.Aggregate.{
  Aggregate, Method, ok, err, threw, ◌>>=◌, ◌>>◌, pure, refuse_if, this_state, assign, emit,
}
use amc_system.Kernel.Duration.{Instant}
use amc_system.Whatsapp.ServiceWindow.{
  OutboundShape, text_of, template_named, WhatsappConflict, not_e164, contact_without_client,
  not_with_a_person, attached_already, opted_out_of, is_closed, may_be_sent,
}

pub data Language : Type 0 where
  en ar : Language

pub data Handling : Type 0 where
  bot human closed : Handling

abbrev pub is_human : Handling → Bool
is_human human = true
is_human bot = false
is_human closed = false

abbrev pub is_shut : Handling → Bool
is_shut closed = true
is_shut bot = false
is_shut human = false

-- `Awaiting`, where `null` is `none`.
pub data Awaited : Type 0 where
  menu_choice documents : Awaited

-- `UNCLEAR_LIMIT`
abbrev unclear_limit : ℕ
unclear_limit = 2

pub record ConversationState : Type 0 where
  pub id : Text
  pub phone : Text
  pub client_id : Option Text
  pub contact_id : Option Text
  pub profile_name : Option Text
  pub language : Language
  pub handling : Handling
  pub assigned_user_id : Option Text
  pub awaiting : Option Awaited
  pub unclear_streak : ℕ
  pub opted_out_at : Option Instant
  pub last_inbound_at : Option Instant
  pub last_outbound_at : Option Instant
  pub created_at : Instant

pub data TakeOverReason : Type 0 where
  asked_for bot_gave_up staff_chose cannot_read : TakeOverReason

pub data ConversationEvent : Type 0 where
  started : Text → Instant → Option Text → Bool → ConversationEvent
  taken_over :
      Text → Instant → Option Text → Text → Option Text → TakeOverReason → ConversationEvent
  handed_back : Text → Instant → Option Text → Option Text → ConversationEvent
  opted_out opted_back_in was_closed : Text → Instant → Option Text → ConversationEvent
  identified : Text → Instant → Text → Option Text → ConversationEvent

abbrev pub Conversation : Type 0
Conversation = Aggregate ConversationState ConversationEvent

abbrev pub ConversationMethod : Type 0 → Type 0
ConversationMethod = Method ConversationState ConversationEvent WhatsappConflict

-- The argument of `Conversation.start`.
pub record StartParams : Type 0 where
  pub id : Text
  pub phone : Text
  pub client_id : Option Text
  pub contact_id : Option Text
  pub profile_name : Option Text
  pub language : Language
  pub now : Instant

abbrev starts_with_plus : Text → Bool
starts_with_plus [] = false
starts_with_plus (c ∷ _) = c == 43

-- Whether a text is there and is not empty.
abbrev pub is_given : Option Text → Bool
is_given none = false
is_given (some s) = not (is_empty s)

abbrev started_as : StartParams → Conversation
started_as p = record {
  state = record {
    id = p.id;
    phone = p.phone;
    client_id = p.client_id;
    contact_id = p.contact_id;
    profile_name = p.profile_name;
    language = p.language;
    handling = bot;
    assigned_user_id = none;
    awaiting = none;
    unclear_streak = 0;
    opted_out_at = none;
    last_inbound_at = none;
    last_outbound_at = none;
    created_at = p.now;
  };
  pending = started p.id p.now p.client_id (is_some p.client_id) ∷ [];
}

-- `start`
unfoldable pub start : StartParams → Result WhatsappConflict Conversation
start p =
    if not (starts_with_plus p.phone)
    then Result.err not_e164
    else if is_given p.contact_id && not (is_given p.client_id)
    then Result.err contact_without_client
    else Result.ok (started_as p)

-- `botMaySpeak`
abbrev pub bot_may_speak : ConversationState → Bool
bot_may_speak s = elim s.handling [ bot ↦ true | human ↦ false | closed ↦ false ]

-- `recordInbound`
unfoldable pub record_inbound : Instant → Language → ConversationMethod (Unit {0})
record_inbound at language = do
  s ← this_state
  assign (record s {
    last_inbound_at = some at;
    language = language;
    handling = if is_shut s.handling && not (is_some s.opted_out_at) then bot else s.handling;
  })

-- `recordOutbound`
unfoldable pub record_outbound : Instant → ConversationMethod (Unit {0})
record_outbound at = do s ← this_state; assign (record s { last_outbound_at = some at })

-- `nowAwaiting`
unfoldable pub now_awaiting : Option Awaited → ConversationMethod (Unit {0})
now_awaiting awaiting = do s ← this_state; assign (record s { awaiting = awaiting })

pub data Answer : Type 0 where
  ask_again give_up : Answer

-- `didNotFollow`
unfoldable pub did_not_follow : ConversationMethod Answer
did_not_follow = do
  s ← this_state
  assign (record s { unclear_streak = s.unclear_streak + 1 })
  pure (if leb unclear_limit (s.unclear_streak + 1) then give_up else ask_again)

-- `followed`
unfoldable pub followed : ConversationMethod (Unit {0})
followed = do s ← this_state; assign (record s { unclear_streak = 0 })

abbrev is_user : Text → Option Text → Bool
is_user user none = false
is_user user (some u) = eq_text u user

abbrev pub unless : Bool → ConversationMethod (Unit {0}) → ConversationMethod (Unit {0})
unless true m = pure tt
unless false m = m

abbrev take_new : Text → TakeOverReason → Instant → ConversationMethod (Unit {0})
take_new user reason now = do
  s ← this_state
  assign (record s {
    handling = human;
    assigned_user_id = some user;
    awaiting = none;
    unclear_streak = 0;
  })
  emit (taken_over s.id now s.client_id user s.assigned_user_id reason)

-- `takeOver`
unfoldable pub take_over : Text → TakeOverReason → Instant → ConversationMethod (Unit {0})
take_over user reason now = do
  s ← this_state
  unless (is_human s.handling && is_user user s.assigned_user_id) (take_new user reason now)

-- `handBack`
unfoldable pub hand_back : Instant → ConversationMethod (Unit {0})
hand_back now = do
  s ← this_state
  refuse_if (not (is_human s.handling)) not_with_a_person
  assign (record s { handling = bot; assigned_user_id = none; awaiting = none })
  emit (handed_back s.id now s.client_id s.assigned_user_id)

abbrev opt_out_now : Instant → ConversationMethod (Unit {0})
opt_out_now now = do
  s ← this_state
  assign (record s {
    opted_out_at = some now;
    handling = closed;
    assigned_user_id = none;
    awaiting = none;
  })
  emit (opted_out s.id now s.client_id)

-- `optOut`
unfoldable pub opt_out : Instant → ConversationMethod (Unit {0})
opt_out now = do s ← this_state; unless (is_some s.opted_out_at) (opt_out_now now)

abbrev opt_in_now : Instant → ConversationMethod (Unit {0})
opt_in_now now = do
  s ← this_state
  assign (record s { opted_out_at = none; handling = bot })
  emit (opted_back_in s.id now s.client_id)

-- `optBackIn`
unfoldable pub opt_back_in : Instant → ConversationMethod (Unit {0})
opt_back_in now = do s ← this_state; unless (not (is_some s.opted_out_at)) (opt_in_now now)

abbrev close_now : Instant → ConversationMethod (Unit {0})
close_now now = do
  s ← this_state
  assign (record s { handling = closed; assigned_user_id = none; awaiting = none })
  emit (was_closed s.id now s.client_id)

-- `close`
unfoldable pub close : Instant → ConversationMethod (Unit {0})
close now = do s ← this_state; unless (is_shut s.handling) (close_now now)

-- `params.contactId ?? this.state.contactId`
abbrev or_else : Option Text → Option Text → Option Text
or_else (some a) b = some a
or_else none b = b

-- `identify`
unfoldable pub identify : Text → Option Text → Instant → ConversationMethod (Unit {0})
identify client contact now = do
  s ← this_state
  refuse_if (is_given s.client_id && not (is_user client s.client_id)) attached_already
  assign (record s { client_id = some client; contact_id = or_else contact s.contact_id })
  emit (identified s.id now client (or_else contact s.contact_id))

abbrev is_text : OutboundShape → Bool
is_text (text_of _) = true
is_text (template_named _) = false

-- `maySend`
unfoldable pub may_send :
    ConversationState → OutboundShape → Instant → Result WhatsappConflict (Unit {0})
may_send s shape now =
    if is_some s.opted_out_at
    then Result.err opted_out_of
    else if is_shut s.handling && is_text shape
    then Result.err is_closed
    else may_be_sent shape s.last_inbound_at now

-- The calls that change a conversation.
pub data Command : Type 0 where
  arrives : Instant → Language → Command
  goes_out : Instant → Command
  waits_for : Option Awaited → Command
  unclear : Command
  clear : Command
  takes : Text → TakeOverReason → Instant → Command
  gives_back : Instant → Command
  stops : Instant → Command
  starts_again : Instant → Command
  closes : Instant → Command
  names : Text → Option Text → Instant → Command

abbrev ignore : ConversationMethod Answer → ConversationMethod (Unit {0})
ignore m = m >>= λ _. pure tt

unfoldable pub execute : Command → ConversationMethod (Unit {0})
execute (arrives at language) = record_inbound at language
execute (goes_out at) = record_outbound at
execute (waits_for awaiting) = now_awaiting awaiting
execute unclear = ignore did_not_follow
execute clear = followed
execute (takes user reason now) = take_over user reason now
execute (gives_back now) = hand_back now
execute (stops now) = opt_out now
execute (starts_again now) = opt_back_in now
execute (closes now) = close now
execute (names client contact now) = identify client contact now
