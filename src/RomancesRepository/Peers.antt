-- ===== src/RomancesRepository/Peers.antt =====
-- `GetAllPeersForActiveUser`: the peers that its goroutine sends, in order, while the context is not
-- cancelled (internal/context/voting/infrastructure/persistence/romances_repository.go).
pub mod Paging
use recs.Prelude.{ℕ, zero, suc, String, Bool, true, false, Option, none, some, List, [], ◌∷◌, ◌++◌}
use recs.Errors.{Result, ok, err}
use recs.Uuid.{Uuid}
use recs.SharedKernel.{ActiveUserKey, peer_user_id}
use recs.Dynamo.{QueryInput, KeyConditionExpression}
use recs.Dynamo.Attributes.{Item, AttributeValue}
use recs.Platform.{Platform}
use recs.RomancesRepository.Transform.{transform_romance_item_to_entity}
use recs.RomancesRepository.Get.{romances_table_name, pk_user_id_attr_name, sk_user_id_attr_name}

module _ {World : Type 0} (p : Platform World) (user_key : ActiveUserKey) where
  unfoldable pub peers_query : Option String → String → Option Item → QueryInput
  peers_query index_name pk_name last_evaluated_key = record {
    table_name = romances_table_name;
    index_name = index_name;
    key_condition_expression = KeyConditionExpression.partition "#pk" ":uid";
    expression_attribute_names = ("#pk", pk_name) ∷ [];
    expression_attribute_values =
        (":uid", AttributeValue.s (p.uuid_string user_key.active_user_id)) ∷ [];
    exclusive_start_key = last_evaluated_key;
    projection_expression = none;
    consistent_read = false;
    region = none;
  }

  -- the peer that an item is sent as
  unfoldable pub peer_of : Item → Result Uuid
  peer_of item = elim (p.unmarshal_romance item) [
    | err e ↦ err e
    | ok romance_item ↦
        elim (transform_romance_item_to_entity p.uuid_parse user_key.country_id
          user_key.active_user_id romance_item) [
            | err e ↦ err e
            | ok romance ↦ ok (peer_user_id romance.active_user_vote.id)
          ]
  ]

  -- the loop over a page: what is sent, and whether it came to the page's end
  unfoldable pub send_page : List Item → List Uuid × Bool
  send_page [] = ([], true)
  send_page (item ∷ items) =
      let rest = send_page items in
      elim (peer_of item) [ err e ↦ ([], false) | ok peer ↦ (peer ∷ rest.0, rest.1) ]

  -- `queryFn`, with at most `fuel` pages: what is sent, the `lastEvaluatedKey` that it leaves, and the
  -- world; `none` where the fuel ran out
  unfoldable pub query_fn :
      ℕ → Option String → String → Option Item → World → Option (List Uuid × Option Item × World)
  query_fn zero index_name pk_name last_evaluated_key w = none
  query_fn (suc fuel) index_name pk_name last_evaluated_key w =
      let (r, w') = p.client.query (peers_query index_name pk_name last_evaluated_key) w in
      elim r [
        | err e ↦ some ([], last_evaluated_key, w')
        | ok out ↦ elim out.items [
          | [] ↦ some ([], last_evaluated_key, w')
          | item ∷ items ↦
              let (sent, all) = send_page (item ∷ items) in
              elim all [
                | false ↦ some (sent, last_evaluated_key, w')
                | true ↦ elim out.last_evaluated_key [
                  | none ↦ some (sent, last_evaluated_key, w')
                  | some key ↦ elim (query_fn fuel index_name pk_name (some key) w') [
                    | none ↦ none
                    | some (more, last, w'') ↦ some (sent ++ more, last, w'')
                  ]
                ]
              ]
        ]
      ]

  -- both queries; they share the variable `lastEvaluatedKey`
  unfoldable pub get_all_peers_for_active_user : ℕ → World → Option (List Uuid × World)
  get_all_peers_for_active_user fuel w = elim (query_fn fuel none pk_user_id_attr_name none w) [
    | none ↦ none
    | some (sent, last, w') ↦
        elim (query_fn fuel (some "gsiByMaxMinUser") sk_user_id_attr_name last w') [
          | none ↦ none
          | some (more, last', w'') ↦ some (sent ++ more, w'')
        ]
  ]
