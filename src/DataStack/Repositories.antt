-- ===== src/DataStack/Repositories.antt =====
-- All requests of the two stores.
use recs.Prelude.{ℕ, ◌≡◌, refl, some, List}
use recs.Uuid.{Uuid}
use recs.SharedKernel.{VoteId, ActiveUserKey}
use recs.Time.{Time}
use recs.VoteType.{VoteType}
use recs.Romance.{Romance}
use recs.Repositories.{CounterUpdateGroup}
use recs.Dynamo.{ttl_attr_name}
use recs.Platform.{Platform}
use recs.Persistence.{new_romances_repository, new_counters_repository}
use recs.DataStack.{data_stack}
use recs.DataStack.Calls.{Calls, start}
use recs.DataStack.RomanceCalls.{
  get_romance-Fits, add-Fits, delete-Fits, change-Fits, delete_romance-Fits,
  delete_romances_group-Fits,
}
use recs.DataStack.PeerCalls.{get_all_peers-Fits}
use recs.DataStack.CounterCalls.{
  get_lifetime_counter-Fits, get_hourly_counters-Fits, incr_yes_counters-Calls,
  incr_no_counters-Calls,
}

-- On every platform, each method of the two stores changes the world only by looks at the clock and
-- by requests that fit a deployed table: each key that a read, an update, a deletion, a transaction
-- or a batch gives has the two attributes of the table that it names, of their types and no more;
-- each query compares the keys of the table or the index that it is run on, with values of their
-- types. Both tables expire rows by the attribute that is written.
pub requests_fit :
    {World : Type 0} (p : Platform World) (fuel : ℕ) (w : World) (id : VoteId)
    (user_key : ActiveUserKey) (peer_ids : List Uuid) (romance : Romance) (vote_type : VoteType)
    (voted_at : Time) (group : CounterUpdateGroup) (hours_offset_groups : List ℕ)
    → let romances = new_romances_repository p fuel in
      let counters = new_counters_repository p in
      Calls p w (romances.get_romance id w).1
      × Calls p w (romances.get_all_peers_for_active_user user_key w).1
      × Calls p w (romances.delete_romance id w).1
      × Calls p w (romances.delete_romances_group user_key peer_ids w).1
      × Calls p w (romances.add_active_user_vote_to_romance romance vote_type voted_at w).1
      × Calls p w (romances.change_active_user_vote_type_in_romance romance vote_type w).1
      × Calls p w (romances.delete_active_user_vote_from_romance romance w).1
      × Calls p w (counters.get_lifetime_counter user_key w).1
      × Calls p w (counters.get_hourly_counters user_key hours_offset_groups w).1
      × Calls p w (counters.incr_yes_counters id group w)
      × Calls p w (counters.incr_no_counters id group w)
      × (data_stack.romances.time_to_live ≡ some ttl_attr_name)
      × (data_stack.counters.time_to_live ≡ some ttl_attr_name)
requests_fit p fuel w id user_key peer_ids romance vote_type voted_at group hours_offset_groups = (
  get_romance-Fits p id w w start,
  get_all_peers-Fits p user_key fuel w w start,
  delete_romance-Fits p id w w start,
  delete_romances_group-Fits p user_key peer_ids w w start,
  add-Fits p romance vote_type voted_at w w start,
  change-Fits p romance vote_type w w start,
  delete-Fits p romance w w start,
  get_lifetime_counter-Fits p user_key w w start,
  get_hourly_counters-Fits p user_key hours_offset_groups w w start,
  incr_yes_counters-Calls p id group w,
  incr_no_counters-Calls p id group w,
  refl,
  refl,
)
