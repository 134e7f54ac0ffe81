-- ===== src/Tests/Messaging.antt =====
-- The theorems on messages, with payloads that are the messages themselves.
use recs.Prelude.{
  ℕ, ◌+◌, ◌≡◌, ◌≢◌, refl, true, Option, none, some, List, [], ◌∷◌, ◌++◌, arith, ◌↔◌, if◌then◌else◌,
}
use recs.Errors.{Result, ok, err, external, wrong_message_name}
use recs.SharedKernel.{new_active_user_key}
use recs.Messages.{
  Message, DeleteRomancesMessage, DeleteRomancesGroupMessage, new_delete_romances_message,
  new_delete_romances_group_message, delete_romances_topic, delete_romances_group_topic,
}
use recs.Messages.Envelopes.{Envelope, Codec, finished, load, payload_of}
use recs.Messages.Envelopes.RoundTrip.{IsCodec, load-payload_of}
use recs.TopicHandler.{TopicHandler, UntypedHandler, handlers_of, dispatch, joined_errors}
use recs.TopicHandler.Dispatching.{Runs, done, handles, fails, dispatch-Runs}
use recs.Handlers.{new_prepared_topic_handler}
use recs.Listener.{Verdict, delivered, closed, ack, safe_process_message, listen}
use recs.Listener.Outcomes.{Handled, listen-Handled}
use recs.Listener.Verdicts.{
  verdict_of, published_processed, misplaced_acknowledged, prepared,
  new_prepared_topic_handler-prepared,
}
use recs.Operation.DeleteRomances.{delete_romances}
use recs.Uuid.{uuid_eq}
use recs.Sns.{Sns, is_fifo, resolve_topic, generate_sqs_queue_name, get_deduplication_id}
use recs.Sns.Queues.{generate_sqs_queue_name_inj}
use recs.Sns.Deduplication.{IsUuidText, get_deduplication_id_iff}
use text.Mathlib.TextEquality.{eq_iff}
use recs.Tests.Memory.{alice, bob, alice_key}
use recs.Tests.Stores.{voting_service}

-- an envelope of either type, or no JSON at all
data Payload : Type 0 where
  romances : Envelope DeleteRomancesMessage → Payload
  romances_group : Envelope DeleteRomancesGroupMessage → Payload
  nil : Payload

-- the fields that both have
abbrev without_peers : Option DeleteRomancesGroupMessage → Option DeleteRomancesMessage
without_peers none = none
without_peers (some m) =
    some (record { active_user_id = m.active_user_id; country_id = m.country_id })

abbrev with_no_peers : Option DeleteRomancesMessage → Option DeleteRomancesGroupMessage
with_no_peers none = none
with_no_peers (some m) =
    some (record { active_user_id = m.active_user_id; country_id = m.country_id; peer_ids = [] })

abbrev read_romances : Payload → Result (Envelope DeleteRomancesMessage)
read_romances (romances env) = ok env
read_romances (romances_group env) =
    ok (record { name = env.name; message = without_peers env.message })
read_romances nil = err (external 3)

abbrev read_romances_group : Payload → Result (Envelope DeleteRomancesGroupMessage)
read_romances_group (romances_group env) = ok env
read_romances_group (romances env) =
    ok (record { name = env.name; message = with_no_peers env.message })
read_romances_group nil = err (external 3)

abbrev codec : Codec Payload
codec = record {
  nil = nil;
  romances = record { marshal = λ env. ok (romances env); unmarshal = read_romances };
  romances_group = record {
    marshal = λ env. ok (romances_group env);
    unmarshal = read_romances_group;
  };
}

read_romances_written :
    (env : Envelope DeleteRomancesMessage) (p : Payload)
    → codec.romances.marshal env ≡ ok p
    → read_romances p ≡ ok env
read_romances_written env (romances e) h = cc
read_romances_written env (romances_group e) h = cc
read_romances_written env nil h = cc

read_romances_group_written :
    (env : Envelope DeleteRomancesGroupMessage) (p : Payload)
    → codec.romances_group.marshal env ≡ ok p
    → read_romances_group p ≡ ok env
read_romances_group_written env (romances e) h = cc
read_romances_group_written env (romances_group e) h = cc
read_romances_group_written env nil h = cc

romances_name_read :
    (env : Envelope DeleteRomancesMessage) (p : Payload)
    → codec.romances.marshal env ≡ ok p
    → read_romances_group p ≡ ok (record { name = env.name; message = with_no_peers env.message })
romances_name_read env (romances e) h = cc
romances_name_read env (romances_group e) h = cc
romances_name_read env nil h = cc

romances_group_name_read :
    (env : Envelope DeleteRomancesGroupMessage) (p : Payload)
    → codec.romances_group.marshal env ≡ ok p
    → read_romances p ≡ ok (record { name = env.name; message = without_peers env.message })
romances_group_name_read env (romances e) h = cc
romances_group_name_read env (romances_group e) h = cc
romances_group_name_read env nil h = cc

codec-IsCodec : IsCodec codec
codec-IsCodec = record {
  romances = record { written = λ env. (romances env, refl); read_back = read_romances_written };
  romances_group = record {
    written = λ env. (romances_group env, refl);
    read_back = read_romances_group_written;
  };
  romances_name = λ env p h. (with_no_peers env.message, romances_name_read env p h);
  romances_group_name = λ env p h. (without_peers env.message, romances_group_name_read env p h);
}

abbrev to_bob : DeleteRomancesGroupMessage
to_bob = new_delete_romances_group_message alice_key (bob ∷ [])

load-payload_of_example :
    (load codec.romances "del_romances"
        (payload_of codec (Message.delete_romances (new_delete_romances_message alice_key)))
      ≡ finished (ok (new_delete_romances_message alice_key)))
    × (load codec.romances_group "del_romances_group"
          (payload_of codec (Message.delete_romances_group to_bob))
        ≡ finished (ok to_bob))
    × (load codec.romances_group "del_romances_group"
          (payload_of codec (Message.delete_romances (new_delete_romances_message alice_key)))
        ≡ finished (err (wrong_message_name "del_romances" "del_romances_group")))
    × (load codec.romances "del_romances" (payload_of codec (Message.delete_romances_group to_bob))
        ≡ finished (err (wrong_message_name "del_romances_group" "del_romances")))
load-payload_of_example =
    load-payload_of codec codec-IsCodec (new_delete_romances_message alice_key) to_bob

-- A topic with two handlers, of which the first one fails.
abbrev failing : UntypedHandler ℕ Payload
failing = record {
  name = "failing";
  can_handle = λ m. some true;
  handle_untyped = λ m w. (finished (err (external 4)), 1 + w);
}

abbrev counting : UntypedHandler ℕ Payload
counting = record {
  name = "counting";
  can_handle = λ m. some true;
  handle_untyped = λ m w. (finished (ok tt), 10 + w);
}

abbrev two_handlers : TopicHandler ℕ Payload
two_handlers = ("topic", failing ∷ counting ∷ []) ∷ []

two_run : Runs nil (handlers_of "topic" two_handlers) 0 (external 4 ∷ []) 11
unfolding handlers_of
two_run = fails (external 4) refl refl (handles refl refl done)

two_are : handlers_of "topic" two_handlers ≢ []
unfolding handlers_of
two_are e = cc

dispatch-Runs_example :
    dispatch two_handlers "topic" nil 0 ≡ (finished (joined_errors (external 4 ∷ [])), 11)
dispatch-Runs_example = dispatch-Runs nil two_handlers "topic" two_are two_run

-- after two messages the channel is closed
listen-Handled_example :
    (verdicts : List Verdict) × (v : ℕ) × Handled two_handlers "topic" 0 (nil ∷ nil ∷ []) verdicts v
    × (listen two_handlers "topic" (delivered nil ∷ delivered nil ∷ closed ∷ []) 0 ≡ (
      verdicts ++ (listen two_handlers "topic" (closed ∷ []) v).0,
      (listen two_handlers "topic" (closed ∷ []) v).1,
      (listen two_handlers "topic" (closed ∷ []) v).2,
    ))
listen-Handled_example = listen-Handled two_handlers "topic" (nil ∷ nil ∷ []) (closed ∷ []) 0

alice_key_accepted : new_active_user_key 7 alice ≡ ok alice_key
unfolding new_active_user_key uuid_eq
alice_key_accepted = refl

abbrev registered : TopicHandler ℕ Payload
registered = prepared voting_service codec

all_registered : new_prepared_topic_handler voting_service codec ≡ some registered
all_registered = new_prepared_topic_handler-prepared voting_service codec

published_processed_example :
    (safe_process_message registered delete_romances_topic
        (payload_of codec (Message.delete_romances (new_delete_romances_message alice_key)))
        5
      ≡ verdict_of (delete_romances voting_service.romances voting_service.publisher alice_key 5))
    × (safe_process_message registered delete_romances_group_topic
          (payload_of codec (Message.delete_romances_group to_bob))
          5
        ≡ verdict_of (voting_service.romances.delete_romances_group alice_key (bob ∷ []) 5))
published_processed_example =
    published_processed voting_service codec codec-IsCodec all_registered alice_key (bob ∷ []) 5
      alice_key_accepted

misplaced_acknowledged_example :
    (safe_process_message registered delete_romances_group_topic
        (payload_of codec (Message.delete_romances (new_delete_romances_message alice_key)))
        5
      ≡ (ack, 5))
    × (safe_process_message registered delete_romances_topic
          (payload_of codec (Message.delete_romances_group to_bob))
          5
        ≡ (ack, 5))
misplaced_acknowledged_example =
    misplaced_acknowledged voting_service codec codec-IsCodec all_registered alice_key (bob ∷ []) 5

-- the queues of the two topics
generate_sqs_queue_name_inj_example :
    (is_fifo (generate_sqs_queue_name (resolve_topic "us-east-1" delete_romances_topic))
      ≡ is_fifo delete_romances_topic)
    × (generate_sqs_queue_name (resolve_topic "us-east-1" delete_romances_topic)
          ≡ generate_sqs_queue_name (resolve_topic "us-east-1" delete_romances_group_topic)
        → delete_romances_topic ≡ delete_romances_group_topic)
generate_sqs_queue_name_inj_example =
    generate_sqs_queue_name_inj "us-east-1" delete_romances_topic delete_romances_group_topic refl
      refl

romances_queue :
    generate_sqs_queue_name (resolve_topic "us-east-1" delete_romances_topic)
    ≡ "delete-romances-queue.fifo"
unfolding generate_sqs_queue_name resolve_topic
romances_queue = refl

abbrev sns : Sns ℕ Payload
sns = record {
  publish = λ topic m w. (ok tt, 1 + w);
  message_group_id_metadata_field = "group";
  message_deduplication_id_metadata_field = "deduplication";
  new_string = λ w. ("id", w);
  uuid_string = λ u. if uuid_eq u alice then "a" else "b";
  md5_hex = λ t. t;
}

abbrev alice_request : DeleteRomancesMessage
alice_request = record { active_user_id = alice; country_id = 17 }

abbrev bob_request : DeleteRomancesMessage
bob_request = record { active_user_id = bob; country_id = 65535 }

printed : get_deduplication_id sns (Message.delete_romances bob_request) ≡ "b_65535"
unfolding get_deduplication_id uuid_eq
printed = refl

texts-IsUuidText : IsUuidText sns.uuid_string alice bob
unfolding uuid_eq
texts-IsUuidText = record { same_length = refl; injective = λ e. cc ((eq_iff "a" "b").1 e) }

get_deduplication_id_iff_example :
    (get_deduplication_id sns (Message.delete_romances alice_request)
      ≡ get_deduplication_id sns (Message.delete_romances bob_request))
    ↔ (alice_request ≡ bob_request)
get_deduplication_id_iff_example =
    get_deduplication_id_iff sns alice_request bob_request texts-IsUuidText (omega arith)
      (omega arith)
