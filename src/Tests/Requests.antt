-- ===== src/Tests/Requests.antt =====
-- The theorems on whole requests: the operation that a path is for, and a vote that is read back.
use recs.Prelude.{ℕ, List, ◌+◌, ◌≡◌, refl, String, true, some, none, [], ◌∷◌}
use recs.Errors.{Error, ok, err, external}
use recs.SharedKernel.{new_vote_id}
use recs.Romance.{create_empty_romance}
use recs.Commands.{VoteAdd, RomanceGet}
use recs.Messages.Envelopes.{Codec}
use recs.Sns.{Sns}
use recs.Responses.{RomanceBody, new_vote_from_entity, romance_get_response}
use recs.RomancesRepository.Writes.Refinement.{voted}
use recs.Routes.{replied, add_vote_route, get_romance_route}
use recs.Wiring.{initialize_voting_service}
use recs.Wiring.Votes.{vote_then_get}
use recs.Routing.{ApiOperation, literal, parameter, get_method, api_operations, matches}
use recs.Routing.Matching.{operation_at, api_operations-one_match}
use recs.DataStack.{data_stack}
use recs.DataStack.Calls.{Calls}
use recs.DataStack.Repositories.{requests_fit}
use recs.Persistence.{new_romances_repository, new_counters_repository}
use recs.Dynamo.{ttl_attr_name}
use recs.Repositories.{CounterUpdateGroup}
use recs.Tests.Memory.{
  Memory, alice_to_bob, alice_key, alice, bob, noon, platform, platform-IsLawful,
  alice_to_bob-IsVoteId, stored,
}
use recs.Uuid.{uuid_eq}
use recs.Tests.Rows.{empty, no-small, noon-is_int32}
use recs.Tests.EndToEnd.{
  strangers, strangers-Represents, strangers-room, platform-TransactsKeep, always_noon, first_no,
  voted_memory,
}

abbrev noon_group : CounterUpdateGroup
noon_group = record { hour_start_time = noon }

requests_fit_example :
    let romances = new_romances_repository platform 5 in
    let counters = new_counters_repository platform in
    Calls platform empty (romances.get_romance alice_to_bob empty).1
    × Calls platform empty (romances.get_all_peers_for_active_user alice_key empty).1
    × Calls platform empty (romances.delete_romance alice_to_bob empty).1
    × Calls platform empty (romances.delete_romances_group alice_key (bob ∷ []) empty).1
    × Calls platform empty (romances.add_active_user_vote_to_romance strangers 2 noon empty).1
    × Calls platform empty (romances.change_active_user_vote_type_in_romance strangers 2 empty).1
    × Calls platform empty (romances.delete_active_user_vote_from_romance strangers empty).1
    × Calls platform empty (counters.get_lifetime_counter alice_key empty).1
    × Calls platform empty (counters.get_hourly_counters alice_key (1 ∷ 24 ∷ []) empty).1
    × Calls platform empty (counters.incr_yes_counters alice_to_bob noon_group empty)
    × Calls platform empty (counters.incr_no_counters alice_to_bob noon_group empty)
    × (data_stack.romances.time_to_live ≡ some ttl_attr_name)
    × (data_stack.counters.time_to_live ≡ some ttl_attr_name)
requests_fit_example =
    requests_fit platform 5 empty alice_to_bob alice_key (bob ∷ []) strangers 2 noon noon_group
      (1 ∷ 24 ∷ [])

-- the path of a romance, whose segments that are parameters may be anything
abbrev romance_path : List String
romance_path = "v1" ∷ "romances" ∷ "7" ∷ "a" ∷ "b" ∷ []

abbrev get_romance_operation : ApiOperation
get_romance_operation = record {
  operation_id = "get-romance";
  method = get_method;
  path =
      literal "v1"
      ∷ literal "romances"
      ∷ parameter "country_id"
      ∷ parameter "active_user_id"
      ∷ parameter "peer_id"
      ∷ [];
  tags = "Romances" ∷ [];
}

romance_operation_found :
    (operation_at 1 api_operations ≡ some get_romance_operation)
    × (matches get_romance_operation get_method romance_path ≡ true)
unfolding api_operations matches
romance_operation_found = (refl, refl)

api_operations-one_match_example : ◌≡◌ {A = ℕ} 1 1
api_operations-one_match_example =
    api_operations-one_match 1 1 get_romance_operation get_romance_operation get_method romance_path
      romance_operation_found.0 romance_operation_found.0 romance_operation_found.1
      romance_operation_found.1

-- JSON that is never read, and a topic that takes each message
abbrev codec : Codec String
codec = record {
  nil = "";
  romances = record { marshal = λ env. ok ""; unmarshal = λ p. err (external 3) };
  romances_group = record { marshal = λ env. ok ""; unmarshal = λ p. err (external 3) };
}

abbrev sns : Sns Memory String
sns = record {
  publish = λ topic m w. (ok tt, w);
  message_group_id_metadata_field = "group";
  message_deduplication_id_metadata_field = "deduplication";
  new_string = λ w. ("id", w);
  uuid_string = λ u. "";
  md5_hex = λ t. t;
}

abbrev other_error : Error → String
other_error e = "error"

abbrev first_command : VoteAdd
first_command = record {
  country_id = 7;
  active_user_id = alice;
  peer_id = bob;
  vote_type = 2;
  voted_at = noon;
}

abbrev alice_and_bob : RomanceGet
alice_and_bob = record { country_id = 7; active_user_id = alice; peer_id = bob }

accepted :
    new_vote_id first_command.country_id first_command.active_user_id first_command.peer_id
    ≡ ok strangers.active_user_vote.id
unfolding new_vote_id recs.SharedKernel.new_active_user_key uuid_eq
accepted = refl

abbrev shown_romance : RomanceBody
shown_romance = romance_get_response (voted strangers 2 noon noon)

requests_answered :
    (add_vote_route other_error (initialize_voting_service platform 5 sns codec) first_command empty
      ≡ (replied (new_vote_from_entity first_no), voted_memory))
    × (get_romance_route other_error
          (initialize_voting_service platform 5 sns codec)
          alice_and_bob
          voted_memory
        ≡ (replied shown_romance, voted_memory))
unfolding add_vote_route get_romance_route recs.Routes.answer recs.Service.add_user_vote
    recs.Service.get_romance recs.Operation.Direct.get_romance
    recs.Operation.AddUserVote.add_user_vote recs.Operation.Retry.retry
    recs.Operation.AddUserVote.attempt_add recs.RomancesRepository.Get.get_romance
    recs.Tests.Memory.get recs.Operation.AddUserVote.vote_on
    recs.Operation.Transitions.is_vote_type_change_allowed
    recs.Repositories.new_counter_update_group recs.Operation.AddUserVote.write_vote
    recs.RomancesRepository.Writes.add_active_user_vote_to_romance recs.Tests.Memory.update
    recs.Dynamo.Expressions.admits recs.Dynamo.Expressions.update_of recs.Documents.Decoding.fits
    uuid_eq recs.Uuid.bytes_less recs.Uuid.bytes_compare recs.Documents.Decoding.document_of
    recs.Dynamo.Attributes.delete recs.Dynamo.Attributes.get recs.Dynamo.Attributes.put
    recs.Dynamo.Expressions.add_numbers recs.Dynamo.Expressions.apply_update
    recs.Dynamo.Expressions.attribute_eq recs.Dynamo.Expressions.condition_holds
    recs.Dynamo.Expressions.evaluate recs.Dynamo.Expressions.none_exists
    recs.Dynamo.Expressions.remove_all recs.Dynamo.Expressions.resolve
    recs.Dynamo.Expressions.set_all recs.Dynamo.get_dynamodb_region_by_country
    recs.Errors.is_conditional_check_failed recs.Errors.is_version_conflict
    recs.Operation.AddUserVote.incr_counters recs.Operation.AddUserVote.moves_no_counters
    recs.Operation.AddUserVote.moves_yes_counters
    recs.Operation.Transitions.allowed_vote_transitions recs.Operation.Transitions.contains
    recs.Prelude.Int.floor_to recs.Prelude.Int.◌+ℤ◌ recs.Romance.create_empty_romance
    recs.RomancesRepository.Get.get_input recs.RomancesRepository.Get.get_romances_table_key
    recs.RomancesRepository.Get.read_romance recs.RomancesRepository.PrimaryKey.is_partition_key
    recs.RomancesRepository.PrimaryKey.new_romance_primary_key
    recs.RomancesRepository.Transform.assemble_romance
    recs.RomancesRepository.Transform.transform_romance_item_to_entity
    recs.RomancesRepository.Ttl.get_ttl_seconds_for_votes_pair
    recs.RomancesRepository.Writes.add_input recs.RomancesRepository.Writes.conflict_or
    recs.RomancesRepository.Writes.read_updated recs.SharedKernel.new_active_user_key
    recs.SharedKernel.new_vote_id recs.SharedKernel.to_peer_vote_id recs.Time.hour_start
    recs.Time.is_zero recs.Time.unix_to_time_ptr recs.VoteType.is_negative recs.VoteType.is_positive
    recs.CountersRepository.Increments.incr_no_counters
    recs.CountersRepository.Increments.incr_counters recs.Tests.Memory.store
requests_answered = (refl, refl)

vote_then_get_example :
    (shown_romance.active_user_vote ≡ new_vote_from_entity first_no)
    × (shown_romance.peer_user_vote ≡ new_vote_from_entity strangers.peer_user_vote)
    × (shown_romance.active_user_vote.vote_type ≡ first_command.vote_type)
vote_then_get_example =
    vote_then_get platform stored platform-TransactsKeep 5 sns codec other_error strangers
      alice_to_bob-IsVoteId platform-IsLawful first_command accepted strangers-room no-small
      noon-is_int32 always_noon alice_and_bob empty voted_memory voted_memory
      (new_vote_from_entity first_no) shown_romance accepted strangers-Represents
      requests_answered.0 requests_answered.1
