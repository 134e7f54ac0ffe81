-- ===== src/Operation/DeleteRomances/Groups.antt =====
-- Which groups of peers are published.
use recs.Prelude.{
  sym, ◌≡◌, refl, List, [], ◌∷◌, ◌++◌, length, arith, ◌==◌, Bool-cases, inl, inr, ◌∙◌, ap,
}
use recs.Errors.{ok}
use recs.Action.{Action, pure, ◌>>◌, >>-pure}
use recs.Uuid.{Uuid}
use recs.SharedKernel.{ActiveUserKey}
use recs.Repositories.{RomancesRepository}
use recs.Grouping.{groups, concat, AreGroups, concat-groups, groups-AreGroups}
use recs.Messages.{
  Publisher, Message, new_delete_romances_group_message, delete_romances_group_topic,
}
use recs.Operation.DeleteRomances.{
  delete_romances, publish_peers, publish_group, publish_last_group, get_romances_group_limit,
}

delete_call :
    {World : Type 0} (romances : RomancesRepository World) (publisher : Publisher World)
    (user_key : ActiveUserKey) (w w' : World) (peers : List Uuid)
    → romances.get_all_peers_for_active_user user_key w ≡ (ok peers, w')
    → delete_romances romances publisher user_key w ≡ publish_peers publisher user_key peers [] w'
unfolding delete_romances
delete_call romances publisher user_key w w' peers h = ground arith

module _ {World : Type 0} (publisher : Publisher World) (user_key : ActiveUserKey) where
  -- The messages for groups of peers, published one after another up to the first error.
  unfoldable pub publish_each : List (List Uuid) → Action World Unit
  publish_each [] = pure tt
  publish_each (g ∷ gs) =
      publisher.publish delete_romances_group_topic
        (Message.delete_romances_group (new_delete_romances_group_message user_key g))
      >> publish_each gs

  publish_last_group-publish_each :
      (group : List Uuid)
      → publish_last_group publisher user_key group
        ≡ publish_each (groups get_romances_group_limit [] group)
  unfolding publish_last_group publish_group publish_each groups
  publish_last_group-publish_each [] = refl
  publish_last_group-publish_each (x ∷ xs) =
      sym (>>-pure (publish_group publisher user_key (x ∷ xs)))

  publish_peers-publish_each :
      (peer_ids group : List Uuid)
      → publish_peers publisher user_key peer_ids group
        ≡ publish_each (groups get_romances_group_limit peer_ids group)
  unfolding publish_peers publish_group groups publish_each
  publish_peers-publish_each [] group = publish_last_group-publish_each group
  publish_peers-publish_each (x ∷ xs) group =
      elim (Bool-cases (length (group ++ x ∷ []) == get_romances_group_limit)) [
        | inl e ↦ rw e (
            ap (λ (k : Action World Unit). publish_group publisher user_key (group ++ x ∷ []) >> k)
              (publish_peers-publish_each xs []))
        | inr e ↦ rw e (publish_peers-publish_each xs (group ++ x ∷ []))
      ]

-- The peers of a user are split into groups that hold all of them, each once and in their order, 25
-- to a group but for the last, which may hold fewer but not none; for each group one message with
-- the user's key and its peers is published on the topic of groups, one after another, up to the
-- first error.
pub delete_romances_groups :
    {World : Type 0} (romances : RomancesRepository World) (publisher : Publisher World)
    (user_key : ActiveUserKey) (w w' : World) (peers : List Uuid)
    → romances.get_all_peers_for_active_user user_key w ≡ (ok peers, w')
    → (gs : List (List Uuid)) × (concat gs ≡ peers)
      × AreGroups 25 gs
      × (delete_romances romances publisher user_key w ≡ publish_each publisher user_key gs w')
delete_romances_groups romances publisher user_key w w' peers h = (
  groups 25 peers [],
  concat-groups 25 peers [],
  groups-AreGroups 25 peers [] (omega arith),
  delete_call romances publisher user_key w w' peers h
      ∙ ap (λ (k : Action _ Unit). k w') (publish_peers-publish_each publisher user_key peers []),
)
