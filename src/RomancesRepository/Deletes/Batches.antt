-- ===== src/RomancesRepository/Deletes/Batches.antt =====
-- The batches of a group deletion.
use recs.Prelude.{
  sym, ◌≡◌, refl, List, [], ◌∷◌, ◌++◌, length, arith, ◌==◌, if◌then◌else◌, Bool-cases, inl, inr,
  ◌∙◌, ap,
}
use recs.Errors.{ok}
use recs.Action.{Action, pure, ◌>>=◌, ◌>>◌, >>-pure, >>-assoc}
use recs.Uuid.{Uuid}
use recs.SharedKernel.{ActiveUserKey, VoteId, new_vote_id}
use recs.Dynamo.Attributes.{Item}
use recs.Grouping.{groups, concat, AreGroups, concat-groups, groups-AreGroups}
use recs.Platform.{Platform}
use recs.RomancesRepository.PrimaryKey.{new_romance_primary_key}
use recs.RomancesRepository.Get.{romances_table_name, get_romances_table_key}
use recs.RomancesRepository.Deletes.{
  delete_romances_group, delete_peers, write_batch, write_last_batch,
}

-- The vote ids of a user and each of the peers, where all are valid.
abbrev pub AreVoteIds : ActiveUserKey → List Uuid → List VoteId → Type 0
AreVoteIds user_key [] [] = Unit
AreVoteIds user_key (peer_id ∷ peer_ids) (id ∷ ids) =
    (new_vote_id user_key.country_id user_key.active_user_id peer_id ≡ ok id)
    × AreVoteIds user_key peer_ids ids
AreVoteIds user_key [] (id ∷ ids) = ⊥
AreVoteIds user_key (peer_id ∷ peer_ids) [] = ⊥

module _ {World : Type 0} (p : Platform World) where
  -- One `BatchWriteItem` on the table of romances for each batch of keys, one after another, up to
  -- the first error; what a request leaves unprocessed is dropped.
  unfoldable pub write_each : List (List Item) → Action World Unit
  write_each [] = pure tt
  write_each (batch ∷ batches) = do
    unprocessed ←
        p.client.batch_write_item (record { table_name = romances_table_name; delete_keys = batch })
    write_each batches

  -- the rows of vote ids
  abbrev pub rows : List VoteId → List Item
  rows [] = []
  rows (id ∷ ids) = get_romances_table_key p (new_romance_primary_key id) ∷ rows ids

  write_each-cons :
      (batch : List Item) (batches : List (List Item))
      → write_each (batch ∷ batches) ≡ (write_batch p batch >> write_each batches)
  unfolding write_each write_batch
  write_each-cons batch batches = sym (
      >>-assoc
        (p.client.batch_write_item
          (record { table_name = romances_table_name; delete_keys = batch }))
        (write_each batches))

  write_last_batch-write_each :
      (batch : List Item) → write_last_batch p batch ≡ write_each (groups 25 [] batch)
  unfolding write_last_batch groups write_each
  write_last_batch-write_each [] = refl
  write_last_batch-write_each (x ∷ xs) =
      sym (>>-pure (write_batch p (x ∷ xs))) ∙ sym (write_each-cons (x ∷ xs) [])

  module _ (user_key : ActiveUserKey) where
    delete_peers_step :
        (x : Uuid) (xs : List Uuid) (id : VoteId) (batch : List Item)
        → new_vote_id user_key.country_id user_key.active_user_id x ≡ ok id
        → delete_peers p user_key (x ∷ xs) batch ≡ (
            let batch' = batch ++ get_romances_table_key p (new_romance_primary_key id) ∷ [] in
            if length batch' == 25
            then write_batch p batch' >> delete_peers p user_key xs []
            else delete_peers p user_key xs batch')
    unfolding delete_peers
    delete_peers_step x xs id batch e = rw e

    delete_peers-write_each :
        (peer_ids : List Uuid) (ids : List VoteId) (batch : List Item)
        → AreVoteIds user_key peer_ids ids
        → delete_peers p user_key peer_ids batch ≡ write_each (groups 25 (rows ids) batch)
    unfolding groups
    delete_peers-write_each [] [] batch h = unfold delete_peers in write_last_batch-write_each batch
    delete_peers-write_each [] (id ∷ ids) batch h = absurd h
    delete_peers-write_each (x ∷ xs) [] batch h = absurd h
    delete_peers-write_each (x ∷ xs) (id ∷ ids) batch (e, h) =
        delete_peers_step x xs id batch e
        ∙ elim (Bool-cases
            (length (batch ++ get_romances_table_key p (new_romance_primary_key id) ∷ []) == 25)) [
              | inl c ↦ rw c (
                  ap
                    (λ (k : Action World Unit).
                      write_batch p
                        (batch ++ get_romances_table_key p (new_romance_primary_key id) ∷ [])
                      >> k)
                    (delete_peers-write_each xs ids [] h)
                  ∙ sym (write_each-cons _ _))
              | inr c ↦ rw c (
                  delete_peers-write_each xs ids
                    (batch ++ get_romances_table_key p (new_romance_primary_key id) ∷ []) h)
            ]

    -- If the user and each peer make a valid vote id, requests are made that ask to delete the rows
    -- of all the pairs, each once and in order, 25 to a request but for the last, which may hold
    -- fewer but not none; they are made one after another, up to the first error, and what one of
    -- them leaves unprocessed is dropped.
    pub delete_romances_group_batches :
        (peer_ids : List Uuid) (ids : List VoteId)
        → AreVoteIds user_key peer_ids ids
        → (batches : List (List Item)) × (concat batches ≡ rows ids)
          × AreGroups 25 batches
          × (delete_romances_group p user_key peer_ids ≡ write_each batches)
    unfolding delete_romances_group
    delete_romances_group_batches peer_ids ids h = (
      groups 25 (rows ids) [],
      concat-groups 25 (rows ids) [],
      groups-AreGroups 25 (rows ids) [] (omega arith),
      delete_peers-write_each peer_ids ids [] h,
    )
