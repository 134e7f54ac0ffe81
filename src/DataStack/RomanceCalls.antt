-- ===== src/DataStack/RomanceCalls.antt =====
-- The requests of the store of romances.
use recs.Prelude.{
  refl, inl, Option, none, some, List, [], ◌∷◌, ◌++◌, All, length, ◌==◌, if◌then◌else◌,
}
use recs.Errors.{Result}
use recs.Action.{lift, pure, ◌>>◌}
use recs.Uuid.{Uuid}
use recs.SharedKernel.{ActiveUserKey, VoteId, new_vote_id, country_id, active_user_id}
use recs.Time.{Time}
use recs.VoteType
use recs.VoteType.{VoteType}
use recs.Romance.{Romance, is_empty}
use recs.Dynamo.Attributes.{Item}
use recs.Documents.{RomanceDocumentSchema}
use recs.Platform.{Platform}
use recs.RomancesRepository.Transform.{transform_romance_item_to_entity}
use recs.RomancesRepository.PrimaryKey.{new_romance_primary_key}
use recs.RomancesRepository.Get.{
  get_romance, get_input, read_romance, get_romances_table_key, romances_table_name,
}
use recs.RomancesRepository.Writes.{
  add_active_user_vote_to_romance, add_input, delete_active_user_vote_from_romance, delete_input,
  change_active_user_vote_type_in_romance, change_input, read_updated, or_raise, conflict_or,
}
use recs.RomancesRepository.Deletes.{
  delete_romance, write_batch, write_last_batch, delete_peers, delete_romances_group,
}
use recs.DataStack.Calls.{
  IsDeployed, looks, gets, updates, deletes, batch_deletes, Fits, Fits-bind, Fits-or_raise, Fits-if,
}

module _ {World : Type 0} (p : Platform World) where
  -- the romance that an item decodes to
  abbrev entity : VoteId → RomanceDocumentSchema → Result Romance
  entity id = transform_romance_item_to_entity p.uuid_parse (country_id id) (active_user_id id)

  read_romance-Fits : (id : VoteId) (out : Option Item) → Fits p (read_romance p id out)
  unfolding read_romance
  read_romance-Fits id none = λ w v c. c
  read_romance-Fits id (some []) = λ w v c. c
  read_romance-Fits id (some (attribute ∷ item)) =
      Fits-bind p (lift (p.unmarshal_romance (attribute ∷ item))) (λ doc. lift (entity id doc))
        (λ w v c. c) (λ doc w v c. c)

  pub get_romance-Fits : (id : VoteId) → Fits p (get_romance p id)
  unfolding get_romance get_input get_romances_table_key
  get_romance-Fits id =
      Fits-bind p (p.client.get_item _) (read_romance p id) (λ w v c. gets _ (inl (refl, refl)) c)
        (read_romance-Fits id)

  read_updated-Fits : (id : VoteId) (attributes : Item) → Fits p (read_updated p id attributes)
  unfolding read_updated
  read_updated-Fits id attributes =
      Fits-bind p (lift (p.unmarshal_romance attributes)) (λ doc. lift (entity id doc)) (λ w v c. c)
        (λ doc w v c. c)

  pub add-Fits :
      (romance : Romance) (vote_type : VoteType) (voted_at : Time)
      → Fits p (add_active_user_vote_to_romance p romance vote_type voted_at)
  unfolding add_active_user_vote_to_romance add_input get_romances_table_key
  add-Fits romance vote_type voted_at w v c =
      Fits-bind p (or_raise (p.client.update_item _) conflict_or)
        (read_updated p romance.active_user_vote.id)
        (Fits-or_raise p (p.client.update_item _) conflict_or
          (λ w v c. updates _ (inl (refl, refl)) c))
        (read_updated-Fits romance.active_user_vote.id) w (p.now v).1 (looks c)

  pub delete-Fits : (romance : Romance) → Fits p (delete_active_user_vote_from_romance p romance)
  unfolding delete_active_user_vote_from_romance delete_input get_romances_table_key
  delete-Fits romance =
      Fits-if p (is_empty romance) _ _ (λ w v c. c)
        (Fits-bind p (or_raise (p.client.update_item _) conflict_or) (λ out. pure tt)
          (Fits-or_raise p (p.client.update_item _) conflict_or
            (λ w v c. updates _ (inl (refl, refl)) c))
          (λ out w v c. c))

  pub change-Fits :
      (romance : Romance) (new_vote_type : VoteType)
      → Fits p (change_active_user_vote_type_in_romance p romance new_vote_type)
  unfolding change_active_user_vote_type_in_romance change_input get_romances_table_key
  change-Fits romance new_vote_type =
      Fits-if p (VoteType.is_empty romance.active_user_vote.vote_type) _ _ (λ w v c. c)
        (Fits-if p (VoteType.is_empty new_vote_type) _ _ (λ w v c. c)
          (λ w v c.
            Fits-bind p (or_raise (p.client.update_item _) conflict_or)
              (read_updated p romance.active_user_vote.id)
              (Fits-or_raise p (p.client.update_item _) conflict_or
                (λ w v c. updates _ (inl (refl, refl)) c))
              (read_updated-Fits romance.active_user_vote.id) w (p.now v).1 (looks c)))

  pub delete_romance-Fits : (id : VoteId) → Fits p (delete_romance p id)
  unfolding delete_romance get_romances_table_key
  delete_romance-Fits id =
      Fits-bind p (p.client.delete_item _) (λ out. pure tt)
        (λ w v c. deletes _ (inl (refl, refl)) c) (λ out w v c. c)

  write_batch-Fits :
      (batch : List Item)
      → All (IsDeployed romances_table_name) batch
      → Fits p (write_batch p batch)
  unfolding write_batch
  write_batch-Fits batch h =
      Fits-bind p (p.client.batch_write_item _) (λ out. pure tt) (λ w v c. batch_deletes _ h c)
        (λ out w v c. c)

  write_last_batch-Fits :
      (batch : List Item)
      → All (IsDeployed romances_table_name) batch
      → Fits p (write_last_batch p batch)
  unfolding write_last_batch
  write_last_batch-Fits [] h = λ w v c. c
  write_last_batch-Fits (key ∷ batch) h = write_batch-Fits (key ∷ batch) h

  -- one more key in the batch
  All-IsDeployed-append :
      (batch : List Item) (key : Item)
      → All (IsDeployed romances_table_name) batch
      → IsDeployed romances_table_name key
      → All (IsDeployed romances_table_name) (batch ++ key ∷ [])
  All-IsDeployed-append [] key h k = (k, tt)
  All-IsDeployed-append (x ∷ batch) key (h, hs) k = (h, All-IsDeployed-append batch key hs k)

  delete_peers-Fits :
      (user_key : ActiveUserKey) (peer_ids : List Uuid) (batch : List Item)
      → All (IsDeployed romances_table_name) batch
      → Fits p (delete_peers p user_key peer_ids batch)
  unfolding delete_peers get_romances_table_key
  delete_peers-Fits user_key [] batch h = write_last_batch-Fits batch h
  delete_peers-Fits user_key (peer_id ∷ peer_ids) batch h =
      let key : VoteId → Item = λ id. get_romances_table_key p (new_romance_primary_key id) in
      Fits-bind p (lift (new_vote_id user_key.country_id user_key.active_user_id peer_id))
        (λ id.
          if length (batch ++ key id ∷ []) == 25
          then write_batch p (batch ++ key id ∷ []) >> delete_peers p user_key peer_ids []
          else delete_peers p user_key peer_ids (batch ++ key id ∷ []))
        (λ w v c. c)
        (λ id.
          let more = All-IsDeployed-append batch (key id) h (inl (refl, refl)) in
          Fits-if p (length (batch ++ key id ∷ []) == 25)
            (write_batch p (batch ++ key id ∷ []) >> delete_peers p user_key peer_ids [])
            (delete_peers p user_key peer_ids (batch ++ key id ∷ []))
            (Fits-bind p (write_batch p (batch ++ key id ∷ []))
              (λ written. delete_peers p user_key peer_ids [])
              (write_batch-Fits (batch ++ key id ∷ []) more)
              (λ written. delete_peers-Fits user_key peer_ids [] tt))
            (delete_peers-Fits user_key peer_ids (batch ++ key id ∷ []) more))

  pub delete_romances_group-Fits :
      (user_key : ActiveUserKey) (peer_ids : List Uuid)
      → Fits p (delete_romances_group p user_key peer_ids)
  unfolding delete_romances_group
  delete_romances_group-Fits user_key peer_ids = delete_peers-Fits user_key peer_ids [] tt
