-- ===== src/Messages/Envelopes.antt =====
-- The payloads of messages: JSON envelopes with a name
-- (internal/context/voting/application/messaging/message, internal/shared/messaging/publisher.go).
-- `encoding/json` is a parameter. A panic is an outcome: `*m = *tmp` in `Load` panics on an envelope
-- whose message is `null`.
pub mod RoundTrip
use text.Mathlib.Text.{◌==◌ as str_eq}
use recs.Prelude.{String, Option, none, some, if◌then◌else◌}
use recs.Errors.{Error, Result, ok, err, wrong_message_name, ◌>>=◌}
use recs.Messages.{DeleteRomancesMessage, DeleteRomancesGroupMessage, Message}

-- `Envelope[*M]`
pub record Envelope (M : Type 0) : Type 0 where
  pub name : String
  pub message : Option M

-- `json.Marshal` and `json.Unmarshal` at one type of envelope
pub record Json (Payload M : Type 0) : Type 0 where
  pub marshal : Envelope M → Result Payload
  pub unmarshal : Payload → Result (Envelope M)

pub data Outcome (A : Type 0) : Type 0 where
  finished : Result A → Outcome A
  panicked : Outcome A

abbrev pub del_romances_message_name : String
del_romances_message_name = "del_romances"

abbrev pub del_romances_group_message_name : String
del_romances_group_message_name = "del_romances_group"

module _ {Payload M : Type 0} (json : Json Payload M) where
  unfoldable pub marshal_message : String → M → Result Payload
  marshal_message name message = json.marshal (record { name = name; message = some message })

  unfoldable pub unmarshal_message : Payload → String → Result (Option M)
  unmarshal_message p expect_name = do
    env ← json.unmarshal p
    if str_eq env.name expect_name
        then ok env.message
        else err (wrong_message_name env.name expect_name)

  -- `GetPayload`; `nil` is the payload without bytes
  unfoldable pub get_payload : Payload → String → M → Payload
  unfolding marshal_message
  get_payload nil name m = elim (marshal_message name m) [ ok payload ↦ payload | err _ ↦ nil ]

  -- `Load` into a message that was just made, which is `MessageFromPayload`
  unfoldable pub load : String → Payload → Outcome M
  unfolding unmarshal_message
  load name payload = elim (unmarshal_message payload name) [
    | err e ↦ finished (err e)
    | ok none ↦ panicked
    | ok (some m) ↦ finished (ok m)
  ]

-- JSON at the two types of messages, over one type of payloads
pub record Codec (Payload : Type 0) : Type 0 where
  pub nil : Payload
  pub romances : Json Payload DeleteRomancesMessage
  pub romances_group : Json Payload DeleteRomancesGroupMessage

unfoldable pub payload_of : {Payload : Type 0} → Codec Payload → Message → Payload
unfolding get_payload
payload_of codec (Message.delete_romances m) =
    get_payload codec.romances codec.nil del_romances_message_name m
payload_of codec (Message.delete_romances_group m) =
    get_payload codec.romances_group codec.nil del_romances_group_message_name m
