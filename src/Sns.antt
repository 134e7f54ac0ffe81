-- ===== src/Sns.antt =====
-- Topics and queues in SNS and SQS, and what is published
-- (internal/shared/platform/amazon_sns, internal/shared/messaging/subscriber.go,
-- internal/context/voting/application/messaging/message).
pub mod Queues
pub mod Deduplication
use Prim.Native.String.{◌++◌ as ◌<>◌}
use recs.Prelude.{String, Bool, List, [], ◌∷◌, if◌then◌else◌}
use recs.Errors.{Result}
use recs.Action.{Action}
use recs.Uuid.{Uuid}
use recs.Strings.{has_suffix, trim_suffix, split_colon, last_part, decimal}
use recs.Messages.{Message, DeleteRomancesMessage, DeleteRomancesGroupMessage, Publisher}
use recs.Messages.Envelopes.{Codec, payload_of}

-- `Topic.IsFifo`
unfoldable pub is_fifo : String → Bool
unfolding has_suffix
is_fifo topic = has_suffix topic ".fifo"

-- `ResolveTopic`, in a region
unfoldable pub resolve_topic : String → String → String
resolve_topic region topic = "arn:aws:sns:" <> (region <> (":000000000000" <> (":" <> topic)))

-- the name of the queue of a topic
unfoldable pub generate_sqs_queue_name : String → String
unfolding has_suffix trim_suffix split_colon
generate_sqs_queue_name topic_arn =
    let is_fifo = has_suffix topic_arn ".fifo" in
    let base = trim_suffix topic_arn ".fifo" in
    let name = last_part (split_colon base) <> "-queue" in if is_fifo then name <> ".fifo" else name

-- `Message` of watermill
pub record SnsMessage (Payload : Type 0) : Type 0 where
  pub uuid : String
  pub payload : Payload
  pub metadata : List (String × String)

-- What comes from packages that are not part of the program: `sns.Publisher` and the names of its two
-- fields of metadata, `uuid.NewString`, `UUID.String`, and MD5 in hexadecimal digits.
pub record Sns (World Payload : Type 0) : Type 0 where
  pub publish : String → SnsMessage Payload → Action World Unit
  pub message_group_id_metadata_field : String
  pub message_deduplication_id_metadata_field : String
  pub new_string : World → String × World
  pub uuid_string : Uuid → String
  pub md5_hex : String → String

-- `%v` of a slice of UUIDs, after its bracket
unfoldable pub print_uuids : (Uuid → String) → List Uuid → String
print_uuids uuid_string [] = "]"
print_uuids uuid_string (u ∷ []) = uuid_string u <> "]"
print_uuids uuid_string (u ∷ v ∷ us) = uuid_string u <> (" " <> print_uuids uuid_string (v ∷ us))

-- `t.String()`
abbrev pub type_name : Message → String
type_name (Message.delete_romances _) = "message.DeleteRomancesMessage"
type_name (Message.delete_romances_group _) = "message.DeleteRomancesGroupMessage"

module _ {World Payload : Type 0} (sns : Sns World Payload) where
  -- `GetDeduplicationId`; a country is a uint16, of at most five digits
  unfoldable pub get_deduplication_id : Message → String
  unfolding print_uuids decimal
  get_deduplication_id (Message.delete_romances m) =
      sns.uuid_string m.active_user_id <> ("_" <> decimal 5 m.country_id)
  get_deduplication_id (Message.delete_romances_group m) = sns.md5_hex (
      sns.uuid_string m.active_user_id
      <> ("_"
          <> (decimal 5 m.country_id <> ("_" <> ("[" <> print_uuids sns.uuid_string m.peer_ids)))))

  unfoldable pub publish : Codec Payload → String → Message → Action World Unit
  unfolding is_fifo get_deduplication_id payload_of
  publish codec topic m w =
      let (id, w') = sns.new_string w in
      sns.publish topic
        (record {
          uuid = id;
          payload = payload_of codec m;
          metadata =
              if is_fifo topic
              then (sns.message_group_id_metadata_field, type_name m)
                ∷ (sns.message_deduplication_id_metadata_field, get_deduplication_id m)
                ∷ []
              else [];
        })
        w'

  abbrev pub new_sns_publisher : Codec Payload → Publisher World
  new_sns_publisher codec = record { publish = publish codec }
