-- ===== src/Whatsapp/Conversation/OptedOut.antt =====
-- A client who asked not to be messaged (conversation.ts).
use amc_system.Base.{
  ◌≡◌, refl, Bool, true, false, List, [], ◌∷◌, All, is_some, arith, inl, inr, Bool-cases,
}
use amc_system.Kernel.Result as Result
use amc_system.Kernel.Aggregate.{run_all}
use amc_system.Kernel.Duration.{Instant}
use amc_system.Whatsapp.ServiceWindow.{OutboundShape, opted_out_of}
use amc_system.Whatsapp.Conversation.{
  Conversation, Command, arrives, goes_out, waits_for, unclear, clear, takes, gives_back, stops,
  starts_again, closes, names, execute, record_inbound, record_outbound, now_awaiting,
  did_not_follow, followed, take_over, hand_back, opt_out, close, identify, may_send,
}

abbrev pub is_start : Command → Bool
is_start (starts_again _) = true
is_start _ = false

abbrev IsOut : Conversation → Type 0
IsOut a = is_some a.state.opted_out_at ≡ true

execute-IsOut :
    (c : Command) (a : Conversation) → is_start c ≡ false → IsOut a → IsOut (execute c a).1
unfolding execute record_inbound record_outbound now_awaiting did_not_follow followed take_over
    hand_back opt_out close identify
execute-IsOut (arrives at language) a n h = h
execute-IsOut (goes_out at) a n h = h
execute-IsOut (waits_for awaiting) a n h = h
execute-IsOut unclear a n h = h
execute-IsOut clear a n h = h
execute-IsOut (takes user reason now) a n h = ground arith
execute-IsOut (gives_back now) a n h = ground arith
execute-IsOut (stops now) a n h = rw h h
execute-IsOut (starts_again now) a n h = absurd (cc)
execute-IsOut (closes now) a n h = ground arith
execute-IsOut (names client contact now) a n h = ground arith

run_all-IsOut :
    (cs : List Command) (a : Conversation)
    → All (λ c. is_start c ≡ false) cs
    → IsOut a
    → IsOut (run_all execute cs a)
unfolding run_all
run_all-IsOut [] a n h = h
run_all-IsOut (c ∷ cs) a n h = run_all-IsOut cs (execute c a).1 n.1 (execute-IsOut c a n.0 h)

opt_out-IsOut : (now : Instant) (a : Conversation) → IsOut (opt_out now a).1
unfolding opt_out
opt_out-IsOut now a = elim (Bool-cases (is_some a.state.opted_out_at)) [
  | inl already ↦ rw already already
  | inr not_yet ↦ rw not_yet refl
]

-- After a client has asked to be left alone, and until they ask to be messaged again, nothing automatic may
-- be sent to them, neither free text nor a template, at any time: whoever takes the conversation over,
-- hands it back, closes it or receives another message of theirs in between.
pub stopped_until_start :
    (stop now : Instant) (cs : List Command) (a : Conversation) (shape : OutboundShape)
    → All (λ c. is_start c ≡ false) cs
    → may_send (run_all execute cs (opt_out stop a).1).state shape now ≡ Result.err opted_out_of
unfolding may_send
stopped_until_start stop now cs a shape n =
    rw (run_all-IsOut cs (opt_out stop a).1 n (opt_out-IsOut stop a)) refl
