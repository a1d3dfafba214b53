-- ===== src/Risk/Mapping.antt =====
-- app/risk/mapping.py: from the gate's record to the engine's inputs.
use Prim.Native.Nat.{Ordering}
use Prim.Native.String.{compare}
use dost_review_api.Prelude.{
  Bool, true, not, ◌&&◌, ◌==◌, String, Option, none, some, List, [], ◌∷◌, ◌++◌, keep, map,
  if◌then◌else◌,
}
use dost_review_api.Risk.Records.{
  units, ge_float, half_units, one_units, fifth_units, Signal, DealStage, stage, unhashable,
  no_stage, SignalRecord, Event, Derived, Item, member,
}

abbrev pub categorical : List String
categorical = "payment_manipulation" ∷ "otp_request" ∷ "phishing" ∷ []

abbrev pub state_seeding : List String
state_seeding =
    "channel_shift_request" ∷ "identity_claim" ∷ "money_ask" ∷ "payee_asked_to_act"
    ∷ "payment_claim" ∷ "contact_share" ∷ "refusal_to_meet" ∷ []

abbrev pub milestone_stages : List String
milestone_stages =
    "price_agreed" ∷ "meet_scheduled" ∷ "ledger_credit" ∷ "ledger_credit_small"
    ∷ "handover_confirmed" ∷ []

abbrev pub milestone_ladder : List String
milestone_ladder = "price_agreed" ∷ "meet_scheduled" ∷ "ledger_credit" ∷ "handover_confirmed" ∷ []

-- `_keeps`.
unfoldable pub keeps : Signal → Bool
keeps s = ge_float s.confidence (if member s.name state_seeding then fifth_units else half_units)

-- The signals of the event: those that pass the floor, and the block that the verdict stands for.
unfoldable pub event_signals : SignalRecord → List Signal
event_signals r =
    let kept = keep keeps r.signals in
    if r.verdict == "reject" && member r.category categorical
    then kept ++ record { name = "categorical_block"; confidence = units one_units } ∷ []
    else kept

-- The milestones of a deal stage: `none` where the test on the set raises a TypeError.
unfoldable pub milestones_of : DealStage → Option (List String)
milestones_of no_stage = some []
milestones_of unhashable = none
milestones_of (stage s) = some (
    if member s milestone_stages
    then (if member s milestone_ladder && not (s == "price_agreed")
        then "price_agreed" ∷ s ∷ []
        else s ∷ [])
    else [])

-- `if record.get("textHash")`: an empty text is dropped.
unfoldable pub truthy_text : Option String → Option String
truthy_text none = none
truthy_text (some t) = if t == "" then none else some t

unfoldable pub event_with : SignalRecord → Option (List String) → Option Event
event_with r none = none
event_with r (some milestones) = some (record {
  ts = r.ts;
  sender_id = r.src_profile_id;
  signals = event_signals r;
  milestones = milestones;
  text_hash = truthy_text r.text_hash;
  turn_index = r.turn_index;
})

-- `to_conversation_event`.
unfoldable pub to_conversation_event : SignalRecord → Option Event
to_conversation_event r = event_with r (milestones_of r.deal_stage)

-- `sorted(...)[0]`, if there is one.
unfoldable pub least_of : String → Option String → String
least_of a none = a
least_of a (some b) = elim (compare a b) [ Ordering.gt ↦ b | _ ↦ a ]

unfoldable pub least : List String → Option String
least [] = none
least (a ∷ names) = some (least_of a (least names))

unfoldable pub counterparty : String → List String → Option String
counterparty sender participants = least (keep (λ p. not (p == sender)) participants)

unfoldable pub to_item : String → List String → Derived → Item
to_item session_id participants d = record {
  tag = d.tag;
  conversation_id = session_id;
  counterparty_id = counterparty d.profile_id participants;
  created_at = some d.ts;
}

unfoldable pub is_for : Option String → Derived → Bool
is_for none d = true
is_for (some k) d = d.profile_id == k

-- `derived_to_signals`.
unfoldable pub derived_to_signals : List Derived → String → List String → Option String → List Item
derived_to_signals derived session_id participants profile_id =
    map (to_item session_id participants) (keep (is_for profile_id) derived)
