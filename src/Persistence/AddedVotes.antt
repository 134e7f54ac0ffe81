-- ===== src/Persistence/AddedVotes.antt =====
-- `AddUserVote`, from the operation down to the stored row.
use text.Mathlib.TextEquality.{eq_iff}
use recs.Prelude.{ℕ, ◌+◌, ◌^◌, ◌<◌, String, ◌≡◌, ◌≢◌, ap, sym, ◌∙◌, true, All, arith}
use recs.Errors.{Error, Result, ok, err, is_version_conflict}
use recs.SharedKernel.{VoteId}
use recs.SharedKernel.Validity.{IsVoteId}
use recs.Time.{Time}
use recs.VoteType.{VoteType}
use recs.Romance.{Romance}
use recs.Dynamo.{TransactUpdate, TransactWriteItemsInput}
use recs.Dynamo.Attributes.{Item}
use recs.Documents.Decoding.{is_int32}
use recs.Platform.{Platform}
use recs.Repositories.{CounterUpdateGroup}
use recs.RomancesRepository.Get.{romances_table_name}
use recs.RomancesRepository.Represents.{IsLawful}
use recs.RomancesRepository.Storage.{add_stores}
use recs.RomancesRepository.Writes.{add_active_user_vote_to_romance, add_input, conflict_or}
use recs.RomancesRepository.Writes.Refinement.{voted}
use recs.Operation.AddUserVote.{incr_counters}
use recs.Persistence.{new_romances_repository, new_counters_repository}
use recs.Persistence.Rows.{Stands, conflict_keeps}
use recs.CountersRepository.Increments.{
  counters_table_name, incr_input, incr_yes_counters, incr_no_counters, outgoing_yes_attr_name,
  incoming_yes_attr_name, outgoing_no_attr_name, incoming_no_attr_name,
}
use recs.CountersRepository.Increments

-- A transaction changes only the tables that its items name.
abbrev pub TransactsKeep :
    {World : Type 0} → Platform World → (World → String → Item → Item) → Type 0
TransactsKeep {World} p stored =
    (i : TransactWriteItemsInput) (w : World) (table : String)
    → All (λ (u : TransactUpdate). u.table_name ≢ table) i.transact_items
    → stored (p.client.transact_write_items i w).1 table ≡ stored w table

module _ {World : Type 0} (p : Platform World) (stored : World → String → Item → Item)
    (transacts_keep : TransactsKeep p stored) where
  counters-ne-romances : counters_table_name ≢ romances_table_name
  counters-ne-romances e = cc ((eq_iff counters_table_name romances_table_name).1 e)

  pub incr-keeps :
      (id : VoteId) (group : CounterUpdateGroup) (a b : String) (w : World)
      → stored (Increments.incr_counters p id group a b w).1 romances_table_name
        ≡ stored w romances_table_name
  unfolding Increments.incr_counters incr_input
  incr-keeps id group a b w = transacts_keep (incr_input p id group a b) w romances_table_name (
    counters-ne-romances,
    (counters-ne-romances, (counters-ne-romances, (counters-ne-romances, tt))),
  )

  pub incr_counters-keeps :
      (fuel : ℕ) (id : VoteId) (old_vote_type vote_type : VoteType) (group : CounterUpdateGroup)
      (w : World)
      → stored
          (incr_counters
            (new_romances_repository p fuel)
            (new_counters_repository p)
            p.now
            id
            old_vote_type
            vote_type
            group
            w)
          romances_table_name
        ≡ stored w romances_table_name
  unfolding incr_counters incr_yes_counters incr_no_counters
  incr_counters-keeps fuel id old_vote_type vote_type group w = ground (
    arith,
    incr-keeps id group outgoing_yes_attr_name incoming_yes_attr_name w,
    incr-keeps id group outgoing_no_attr_name incoming_no_attr_name w,
    incr-keeps id group outgoing_no_attr_name incoming_no_attr_name
        (incr_yes_counters p id group w),
  )

module _ {World : Type 0} (p : Platform World) (stored : World → String → Item → Item) (r : Romance)
    (valid : IsVoteId r.active_user_vote.id) (lawful : IsLawful p stored r.active_user_vote.id)
    (vote_type : VoteType) (voted_at : Time) (room : r.version + 1 < 2 ^ 32)
    (named : vote_type < 256) (at_int32 : is_int32 voted_at.unix ≡ true)
    (now_int32 : (w : World) → is_int32 (p.now w).0.unix ≡ true) where
  -- the row stands for a romance
  abbrev RowStands : World → Romance → Type 0
  RowStands = Stands p stored r valid lawful

  -- the answer of the database to the update
  abbrev pub updated_to : World → Result Item × World
  updated_to w = p.client.update_item (add_input p r vote_type voted_at (p.now w).0) (p.now w).1

  add_answered :
      (w : World) {new : Item}
      → (updated_to w).0 ≡ ok new
      → RowStands w r
      → let (out, w') = add_active_user_vote_to_romance p r vote_type voted_at w in
        (out ≡ ok (voted r vote_type voted_at (p.now w).0))
        × RowStands w' (voted r vote_type voted_at (p.now w).0)
  add_answered w h b =
      add_stores p stored r valid lawful vote_type voted_at w h b room named at_int32 (now_int32 w)

  add_not_answered :
      (w : World) (e : Error)
      → (updated_to w).0 ≡ err e
      → add_active_user_vote_to_romance p r vote_type voted_at w
        ≡ (err (conflict_or e), (updated_to w).1)
  unfolding add_active_user_vote_to_romance
  add_not_answered w e h = ground arith

  -- a version conflict comes from a condition that failed, so nothing was written
  pub add_conflicted :
      (a : Result Item) (w w' : World) (e : Error)
      → (updated_to w).0 ≡ a
      → RowStands w r
      → add_active_user_vote_to_romance p r vote_type voted_at w ≡ (err e, w')
      → is_version_conflict e ≡ true
      → stored w' ≡ stored w
  add_conflicted (ok new) w w' e h b f c = cc ((add_answered w h b).0)
  add_conflicted (err e') w w' e h b f c =
      let failed = sym (add_not_answered w e' h) ∙ f in
      ap stored (sym (ap (λ x. x.1) failed))
      ∙ (conflict_keeps p stored r valid lawful _ (p.now w).1 e' h (cc (failed, c))
          ∙ lawful.clock_keeps w)

  pub add_done :
      (a : Result Item) (w w' : World) (updated : Romance)
      → (updated_to w).0 ≡ a
      → RowStands w r
      → add_active_user_vote_to_romance p r vote_type voted_at w ≡ (ok updated, w')
      → (updated ≡ voted r vote_type voted_at (p.now w).0)
        × RowStands w' (voted r vote_type voted_at (p.now w).0)
  add_done (ok new) w w' updated h b f = let (x, y) = add_answered w h b in (cc, rw f at y)
  add_done (err e) w w' updated h b f = cc (add_not_answered w e h)
