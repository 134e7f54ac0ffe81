-- ===== src/RomancesRepository/Writes.antt =====
-- `AddActiveUserVoteToRomance`, `DeleteActiveUserVoteFromRomance` and
-- `ChangeActiveUserVoteTypeInRomance`: conditional updates of the active user's half of a row
-- (internal/context/voting/infrastructure/persistence/romances_repository.go).
pub mod Added
pub mod Deleted
pub mod Changed
pub mod Refinement
use recs.Prelude.{
  ℕ, ◌+◌, String, Bool, true, false, Option, none, some, List, [], ◌∷◌, ◌==◌, if◌then◌else◌,
}
use recs.Prelude.Int.{ℤ, pos}
use recs.Errors.{
  Error, Result, ok, err, version_conflict, vote_not_found, wrong_vote, is_conditional_check_failed,
}
use recs.Action.{Action, pure, raise, lift, call, ◌>>=◌}
use recs.Uuid.{Uuid}
use recs.SharedKernel.{VoteId, country_id, active_user_id}
use recs.Time.{Time}
use recs.VoteType
use recs.VoteType.{VoteType, vote_type_empty}
use recs.Romance.{Romance, is_empty}
use recs.Dynamo.{
  UpdateItemInput, UpdateExpression, Operand, ConditionExpression, get_dynamodb_region_by_country,
  ttl_attr_name,
}
use recs.Dynamo.Attributes.{Assoc, Item, AttributeValue}
use recs.Platform.{Platform}
use recs.RomancesRepository.PrimaryKey.{
  RomancePrimaryKey, new_romance_primary_key, is_partition_key,
}
use recs.RomancesRepository.Ttl.{get_ttl_seconds_for_votes_pair}
use recs.RomancesRepository.Transform.{transform_romance_item_to_entity}
use recs.RomancesRepository.Get.{
  romances_table_name, pk_user_id_attr_name, sk_user_id_attr_name, get_romances_table_key,
}

abbrev pub version_attr_name : String
version_attr_name = "v"

-- the attributes of the row that hold the active user's vote: `exprNames` of the three operations,
-- where each leaves out what its expression does not name
abbrev names_to_add : Bool → Assoc String
names_to_add true =
    ("#version", version_attr_name)
    ∷ ("#ttl", ttl_attr_name)
    ∷ ("#voteType", "e")
    ∷ ("#votedAt", "g")
    ∷ ("#voteCreatedAt", "h")
    ∷ []
names_to_add false =
    ("#version", version_attr_name)
    ∷ ("#ttl", ttl_attr_name)
    ∷ ("#voteType", "l")
    ∷ ("#votedAt", "n")
    ∷ ("#voteCreatedAt", "o")
    ∷ []

abbrev names_to_delete : Bool → Assoc String
names_to_delete true =
    ("#version", version_attr_name)
    ∷ ("#ttl", ttl_attr_name)
    ∷ ("#voteType", "e")
    ∷ ("#votedAt", "g")
    ∷ ("#voteCreatedAt", "h")
    ∷ ("#voteUpdatedAt", "i")
    ∷ []
names_to_delete false =
    ("#version", version_attr_name)
    ∷ ("#ttl", ttl_attr_name)
    ∷ ("#voteType", "l")
    ∷ ("#votedAt", "n")
    ∷ ("#voteCreatedAt", "o")
    ∷ ("#voteUpdatedAt", "p")
    ∷ []

abbrev names_to_change : Bool → Assoc String
names_to_change true =
    ("#version", version_attr_name)
    ∷ ("#ttl", ttl_attr_name)
    ∷ ("#voteType", "e")
    ∷ ("#voteUpdatedAt", "i")
    ∷ []
names_to_change false =
    ("#version", version_attr_name)
    ∷ ("#ttl", ttl_attr_name)
    ∷ ("#voteType", "l")
    ∷ ("#voteUpdatedAt", "p")
    ∷ []

-- an `AttributeValueMemberN` of `strconv.FormatInt` or `strconv.Itoa`
abbrev number : ℕ → AttributeValue
number k = AttributeValue.n (pos k)

-- what the three operations do with a failed `UpdateItem`
unfoldable pub conflict_or : Error → Error
unfolding is_conditional_check_failed
conflict_or e = if is_conditional_check_failed e then version_conflict else e

-- a call, with its error replaced by another
abbrev pub or_raise : {World A : Type 0} → Action World A → (Error → Error) → Action World A
or_raise m f w = let (r, w') = m w in elim r [ ok a ↦ (ok a, w') | err e ↦ (err (f e), w') ]

module _ {World : Type 0} (p : Platform World) where
  unfoldable pub add_input : Romance → VoteType → Time → Time → UpdateItemInput
  unfolding get_romances_table_key new_romance_primary_key is_partition_key
      get_ttl_seconds_for_votes_pair get_dynamodb_region_by_country
  add_input romance vote_type voted_at now =
      let id = romance.active_user_vote.id in
      let romance_key = new_romance_primary_key id in
      let ttl_seconds =
        get_ttl_seconds_for_votes_pair p.config vote_type romance.peer_user_vote.vote_type in
      let values : Item =
        (":voteType", number vote_type)
        ∷ (":votedAt", AttributeValue.n voted_at.unix)
        ∷ (":createdAt", AttributeValue.n now.unix)
        ∷ (":v", number (romance.version + 1))
        ∷ (":ttl", AttributeValue.n ttl_seconds)
        ∷ [] in
      let is_first = romance.version == 0 in
      record {
        key = get_romances_table_key p romance_key;
        table_name = romances_table_name;
        update_expression = record {
          set =
              ("#voteType", Operand.value ":voteType")
              ∷ ("#votedAt", Operand.value ":votedAt")
              ∷ ("#voteCreatedAt", Operand.value ":createdAt")
              ∷ ("#version", Operand.value ":v")
              ∷ ("#ttl", Operand.value ":ttl")
              ∷ [];
          remove = [];
        };
        expression_attribute_names =
            names_to_add (is_partition_key romance_key (active_user_id id));
        expression_attribute_values =
            if is_first then values else (":expectedV", number romance.version) ∷ values;
        condition_expression = some (
            if is_first
            then ConditionExpression.attributes_not_exist
                (pk_user_id_attr_name ∷ sk_user_id_attr_name ∷ [])
            else ConditionExpression.equals "#version" ":expectedV");
        region = some (get_dynamodb_region_by_country (country_id id));
      }

  -- the attributes that an update returns, decoded for the active user
  unfoldable pub read_updated : VoteId → Item → Action World Romance
  unfolding transform_romance_item_to_entity
  read_updated id attributes = do
    romance_item ← lift (p.unmarshal_romance attributes)
    lift (
        transform_romance_item_to_entity p.uuid_parse (country_id id) (active_user_id id)
          romance_item)

  unfoldable pub add_active_user_vote_to_romance : Romance → VoteType → Time → Action World Romance
  unfolding add_input read_updated conflict_or
  add_active_user_vote_to_romance romance vote_type voted_at = do
    now ← call p.now
    attributes ←
        or_raise (p.client.update_item (add_input romance vote_type voted_at now)) conflict_or
    read_updated romance.active_user_vote.id attributes

  unfoldable pub delete_input : Romance → UpdateItemInput
  unfolding get_romances_table_key new_romance_primary_key is_partition_key
      get_ttl_seconds_for_votes_pair get_dynamodb_region_by_country
  delete_input romance =
      let id = romance.active_user_vote.id in
      let romance_key = new_romance_primary_key id in
      let ttl_seconds =
        get_ttl_seconds_for_votes_pair p.config vote_type_empty romance.peer_user_vote.vote_type in
      record {
        key = get_romances_table_key p romance_key;
        table_name = romances_table_name;
        update_expression = record {
          set = ("#version", Operand.value ":v") ∷ ("#ttl", Operand.value ":ttl") ∷ [];
          remove = "#voteType" ∷ "#votedAt" ∷ "#voteCreatedAt" ∷ "#voteUpdatedAt" ∷ [];
        };
        expression_attribute_names =
            names_to_delete (is_partition_key romance_key (active_user_id id));
        expression_attribute_values =
            (":v", number (romance.version + 1))
            ∷ (":ttl", AttributeValue.n ttl_seconds)
            ∷ (":expectedV", number romance.version)
            ∷ [];
        condition_expression = some (ConditionExpression.equals "#version" ":expectedV");
        region = some (get_dynamodb_region_by_country (country_id id));
      }

  unfoldable pub delete_active_user_vote_from_romance : Romance → Action World Unit
  unfolding delete_input conflict_or is_empty
  delete_active_user_vote_from_romance romance =
      if is_empty romance
      then pure tt
      else do out ← or_raise (p.client.update_item (delete_input romance)) conflict_or; pure tt

  unfoldable pub change_input : Romance → VoteType → Time → UpdateItemInput
  unfolding get_romances_table_key new_romance_primary_key is_partition_key
      get_ttl_seconds_for_votes_pair get_dynamodb_region_by_country
  change_input romance new_vote_type now =
      let id = romance.active_user_vote.id in
      let romance_key = new_romance_primary_key id in
      let ttl_seconds =
        get_ttl_seconds_for_votes_pair p.config new_vote_type romance.peer_user_vote.vote_type in
      record {
        key = get_romances_table_key p romance_key;
        table_name = romances_table_name;
        update_expression = record {
          set =
              ("#voteType", Operand.value ":voteType")
              ∷ ("#voteUpdatedAt", Operand.value ":updatedAt")
              ∷ ("#version", Operand.value ":v")
              ∷ ("#ttl", Operand.value ":ttl")
              ∷ [];
          remove = [];
        };
        expression_attribute_names =
            names_to_change (is_partition_key romance_key (active_user_id id));
        expression_attribute_values =
            (":voteType", number new_vote_type)
            ∷ (":updatedAt", AttributeValue.n now.unix)
            ∷ (":v", number (romance.version + 1))
            ∷ (":ttl", AttributeValue.n ttl_seconds)
            ∷ (":expectedV", number romance.version)
            ∷ [];
        condition_expression = some (ConditionExpression.equals "#version" ":expectedV");
        region = some (get_dynamodb_region_by_country (country_id id));
      }

  unfoldable pub change_active_user_vote_type_in_romance : Romance → VoteType → Action World Romance
  unfolding change_input read_updated conflict_or VoteType.is_empty
  change_active_user_vote_type_in_romance romance new_vote_type =
      if VoteType.is_empty romance.active_user_vote.vote_type
      then raise vote_not_found
      else if VoteType.is_empty new_vote_type
      then raise wrong_vote
      else do
        now ← call p.now
        attributes ←
            or_raise (p.client.update_item (change_input romance new_vote_type now)) conflict_or
        read_updated romance.active_user_vote.id attributes
