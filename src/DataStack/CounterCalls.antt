-- ===== src/DataStack/CounterCalls.antt =====
-- The requests of the store of counters.
use recs.Prelude.{ℕ, String, refl, inr, Option, none, some, List, [], ◌∷◌}
use recs.SharedKernel.{ActiveUserKey, VoteId}
use recs.Repositories.{CounterUpdateGroup}
use recs.Dynamo.Attributes.{Item, get}
use recs.Action.{lift, pure, ◌>>=◌}
use recs.Platform.{Platform}
use recs.CountersRepository.Increments.{
  transform_counters_group_item_to_entity, get_lifetime_counter, read_lifetime_counter,
  get_counters_table_key, incr_counters, incr_input, hourly_update, lifetime_update,
  incr_yes_counters, incr_no_counters,
}
use recs.CountersRepository.Hourly.{add_items, get_hourly_counters, empty_groups, hourly_query}
use recs.DataStack.Calls.{Calls, start, looks, gets, queries, transacts, Fits, Fits-bind}

module _ {World : Type 0} (p : Platform World) where
  read_lifetime_counter-Fits :
      (user_key : ActiveUserKey) (out : Option Item) → Fits p (read_lifetime_counter p user_key out)
  unfolding read_lifetime_counter
  read_lifetime_counter-Fits user_key none = λ w v c. c
  read_lifetime_counter-Fits user_key (some []) = λ w v c. c
  read_lifetime_counter-Fits user_key (some (attribute ∷ item)) =
      let entity = transform_counters_group_item_to_entity p user_key.country_id in
      Fits-bind p (lift (p.unmarshal_counters (attribute ∷ item)))
        (λ doc. do group ← lift (entity doc); pure (some group)) (λ w v c. c)
        (λ doc.
          Fits-bind p (lift (entity doc)) (λ group. pure (some group)) (λ w v c. c)
            (λ group w v c. c))

  pub get_lifetime_counter-Fits :
      (user_key : ActiveUserKey) → Fits p (get_lifetime_counter p user_key)
  unfolding get_lifetime_counter get_counters_table_key
  get_lifetime_counter-Fits user_key =
      Fits-bind p (p.client.get_item _) (read_lifetime_counter p user_key)
        (λ w v c. gets _ (inr (refl, refl)) c) (read_lifetime_counter-Fits user_key)

  empty_groups-Calls :
      (user_key : ActiveUserKey) (hours : List ℕ) (w v : World)
      → Calls p w v
      → Calls p w (empty_groups p user_key hours v).1
  unfolding empty_groups
  empty_groups-Calls user_key [] w v c = c
  empty_groups-Calls user_key (hour ∷ hours) w v c =
      empty_groups-Calls user_key hours w (p.now v).1 (looks c)

  pub get_hourly_counters-Fits :
      (user_key : ActiveUserKey) (hours : List ℕ) → Fits p (get_hourly_counters p user_key hours)
  unfolding get_hourly_counters hourly_query get
  get_hourly_counters-Fits user_key hours w v c =
      Fits-bind p (p.client.query _)
        (λ out. lift (add_items p user_key out.items (empty_groups p user_key hours v).0))
        (λ w v c. queries _ (inr (refl, ((refl, _, refl, refl), (refl, _, refl, refl)))) c)
        (λ out w v c. c) w _ (looks (empty_groups-Calls user_key hours w v c))

  incr_counters-Fits :
      (id : VoteId) (group : CounterUpdateGroup) (active_user_counter peer_user_counter : String)
      → Fits p (incr_counters p id group active_user_counter peer_user_counter)
  unfolding incr_counters incr_input hourly_update lifetime_update get_counters_table_key
  incr_counters-Fits id group active_user_counter peer_user_counter w v c =
      transacts _ (inr (refl, refl), (inr (refl, refl), (inr (refl, refl), (inr (refl, refl), tt))))
        c

  pub incr_yes_counters-Calls :
      (id : VoteId) (group : CounterUpdateGroup) (w : World)
      → Calls p w (incr_yes_counters p id group w)
  unfolding incr_yes_counters
  incr_yes_counters-Calls id group w = incr_counters-Fits id group _ _ w w start

  pub incr_no_counters-Calls :
      (id : VoteId) (group : CounterUpdateGroup) (w : World)
      → Calls p w (incr_no_counters p id group w)
  unfolding incr_no_counters
  incr_no_counters-Calls id group w = incr_counters-Fits id group _ _ w w start
