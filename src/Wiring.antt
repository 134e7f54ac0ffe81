-- ===== src/Wiring.antt =====
-- What the two programs are made of (internal/app/di/wire_gen.go).
pub mod Votes
use recs.Prelude.{ℕ, Option}
use recs.Platform.{Platform}
use recs.Persistence.{new_romances_repository, new_counters_repository}
use recs.Messages.Envelopes.{Codec}
use recs.Sns.{Sns, new_sns_publisher}
use recs.Service.{VotingService}
use recs.TopicHandler.{TopicHandler}
use recs.Handlers.{new_prepared_topic_handler}

module _ {World Payload : Type 0} (p : Platform World) (fuel : ℕ) (sns : Sns World Payload)
    (codec : Codec Payload) where
  -- the service of both programs, which the routes of the web server run
  abbrev pub initialize_voting_service : VotingService World
  initialize_voting_service = record {
    romances = new_romances_repository p fuel;
    counters = new_counters_repository p;
    publisher = new_sns_publisher sns codec;
    now = p.now;
  }

  -- the handlers of the message processor; `none` is the panic of a registration
  abbrev pub initialize_topic_handler : Option (TopicHandler World Payload)
  initialize_topic_handler = new_prepared_topic_handler initialize_voting_service codec
