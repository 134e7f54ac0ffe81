-- ===== src/Interleaving/Runs.antt =====
-- A run of the operation that adds a vote, as steps of an interleaving.
use mathlib.Core.List.Memᴰ.{head}
use recs.Prelude.{ℕ, String, ◌≡◌, refl, sym, ap, ◌∙◌, Bool, true, some, List, ◌∷◌, arith}
use recs.Errors.{Error, Result, ok, err, is_version_conflict}
use recs.SharedKernel.{VoteId}
use recs.Time.{Time}
use recs.VoteType.{VoteType}
use recs.Romance.{Vote, Romance}
use recs.Dynamo.Attributes.{Item}
use recs.Platform.{Platform}
use recs.RomancesRepository.Get.{romances_table_name, get_romance}
use recs.RomancesRepository.Represents.{IsLawful, row_key}
use recs.RomancesRepository.Writes.{add_active_user_vote_to_romance}
use recs.Operation.Retry.{Attempt, write_failed}
use recs.Operation.Retry.Bounds.{Conflicts, again}
use recs.Operation.AddUserVote.{add_user_vote, attempt_add}
use recs.Operation.AddUserVote.Guards.{attempt_add_read, attempt_add_failed_read}
use recs.Operation.AddUserVote.Success.{Adds, adds, add_success}
use recs.Persistence.{new_romances_repository, new_counters_repository}
use recs.Persistence.AddUserVote.{failed_write}
use recs.Persistence.AddedVotes.{TransactsKeep, incr_counters-keeps}
use recs.Interleaving.{
  add_vote, Held, Accepted, State, id_of, Fits, write_to, Step, reads, accepts, conflicts, others,
}

-- the entry of a vote that was added by one of the users, and returned
pub data Entry (is_first : Bool) (vote_type : VoteType) (voted_at : Time) (vote : Vote)
    (a : Accepted) : Type 0 where
  entry :
      (updated : Romance)
      → a.held.is_first ≡ is_first
      → a.write ≡ add_vote vote_type voted_at
      → a.answer ≡ some updated
      → vote ≡ updated.active_user_vote
      → Entry is_first vote_type voted_at vote a

module _ {World : Type 0} (p : Platform World) (stored : World → String → Item → Item)
    (id : VoteId) where
  pub data Steps : State World → State World → Type 0 where
    none : {s : State World} → Steps s s
    more : {s t u : State World} → Step p stored id s t → Steps t u → Steps s u

  Steps-append : {s t u : State World} → Steps s t → Steps t u → Steps s u
  Steps-append none after = after
  Steps-append (more step rest) after = more step (Steps-append rest after)

  module _ (transacts_keep : TransactsKeep p stored) (fuel : ℕ) (lawful : IsLawful p stored id)
      (is_first : Bool) (vote_type : VoteType) (voted_at : Time)
      (fit : Fits (add_vote vote_type voted_at)) where
    abbrev attempt : World → Attempt Vote × World
    attempt =
        attempt_add (new_romances_repository p fuel) (new_counters_repository p) p.now
          (id_of is_first id) vote_type voted_at

    -- a romance as this request reads it, and the state once it has
    abbrev held_of : Romance → Held
    held_of romance = record { is_first = is_first; romance = romance }

    abbrev read_state : State World → Romance → World → State World
    read_state s romance read = record s { world = (p.now read).1; held = held_of romance ∷ s.held }

    read_Steps :
        (s : State World) (romance : Romance) (read : World)
        → get_romance p (id_of is_first id) s.world ≡ (ok romance, read)
        → Steps s (read_state s romance read)
    read_Steps s romance read g = more (reads is_first romance read g refl) (
        more
          (others (p.now read).1
            (ap (λ m. m romances_table_name (row_key p id)) (lawful.clock_keeps read)) refl)
          none)

    -- Steps to a world, with a log
    abbrev Leads : State World → World → List Accepted → Type 0
    Leads s w log = (t : State World) × Steps s t × (t.world ≡ w) × (t.log ≡ log)

    write_conflicts :
        (romance : Romance) (w w' : World) (e : Error)
        → add_active_user_vote_to_romance p romance vote_type voted_at w ≡ (err e, w')
        → write_to p (add_vote vote_type voted_at) romance w ≡ (err e, w')
    unfolding write_to
    write_conflicts romance w w' e h = ground arith

    write_accepts :
        (romance updated : Romance) (w w' : World)
        → add_active_user_vote_to_romance p romance vote_type voted_at w ≡ (ok updated, w')
        → write_to p (add_vote vote_type voted_at) romance w ≡ (ok (some updated), w')
    unfolding write_to
    write_accepts romance updated w w' h = ground arith

    -- a pass that ends in a version conflict
    conflict_Leads :
        (s : State World) (w' : World) (e : Error) (r : Result Romance) (read : World)
        → get_romance p (id_of is_first id) s.world ≡ (r, read)
        → attempt s.world ≡ (write_failed e, w')
        → is_version_conflict e ≡ true
        → Leads s w' s.log
    conflict_Leads s w' e (err x) read g h c = cc (
        attempt_add_failed_read (new_romances_repository p fuel) (new_counters_repository p) p.now
          (id_of is_first id) vote_type voted_at x s.world read g)
    conflict_Leads s w' e (ok romance) read g h c =
        let failed =
          failed_write (new_romances_repository p fuel) (new_counters_repository p) p.now
            (id_of is_first id) vote_type voted_at romance read w' e
            (sym (
                attempt_add_read (new_romances_repository p fuel) (new_counters_repository p) p.now
                  (id_of is_first id) vote_type voted_at romance s.world read g)
              ∙ h)
            _ _ refl in
        (
          record (read_state s romance read) { world = w' },
          Steps-append (read_Steps s romance read g) (
              more
                (conflicts (held_of romance) (add_vote vote_type voted_at) e w' (head refl) fit
                  (write_conflicts romance (p.now read).1 w' e failed) c refl)
                none),
          refl,
          refl,
        )

    Conflicts-Leads :
        {n : ℕ} {w v : World} (s : State World)
        → Conflicts attempt n w v
        → s.world ≡ w
        → Leads s v s.log
    Conflicts-Leads s Conflicts.start e = (s, none, e, refl)
    Conflicts-Leads s (again {w' = w'} x h c rest) e =
        let (t, first, at, log) = conflict_Leads s w' x _ _ refl (ap attempt e ∙ h) c in
        let (u, second, out, log') = Conflicts-Leads t rest at in
        (u, Steps-append first second, out, log' ∙ log)

    -- the pass that adds the vote
    Adds-Leads :
        (s : State World) (vote : Vote) (out : World)
        → Adds
            (new_romances_repository p fuel)
            (new_counters_repository p)
            p.now
            (id_of is_first id)
            vote_type
            voted_at
            s.world
            vote
            out
        → (a : Accepted) × Leads s out (a ∷ s.log) × Entry is_first vote_type voted_at vote a
    Adds-Leads s vote out
          (adds romance updated group read written g allowed made wrote shown left) =
        let a : Accepted = record {
          held = held_of romance;
          write = add_vote vote_type voted_at;
          now = (p.now (p.now read).1).0;
          answer = some updated;
        } in
        let counted =
          incr_counters-keeps p stored transacts_keep fuel (id_of is_first id)
            romance.active_user_vote.vote_type vote_type group written in
        (
          a,
          (
            record (read_state s romance read) { world = out; log = a ∷ s.log },
            Steps-append (read_Steps s romance read g) (
                more
                  (accepts (held_of romance) (add_vote vote_type voted_at) (some updated) written
                    (head refl) fit refl
                    (write_accepts romance updated (p.now read).1 written wrote) refl)
                  (more
                    (others out
                      (ap (λ m. stored m romances_table_name (row_key p id)) left
                        ∙ ap (λ m. m (row_key p id)) counted)
                      refl)
                    none)),
            refl,
            refl,
          ),
          entry updated refl refl refl shown,
        )

  -- A run of the operation that returns a vote is a sequence of steps of the interleaving, from any
  -- state with its world: passes that conflict, and one that writes the vote, which is then the
  -- latest write accepted, by that user and with the answer whose vote is returned.
  pub add_user_vote_runs :
      (transacts_keep : TransactsKeep p stored) (fuel : ℕ) (lawful : IsLawful p stored id)
      (is_first : Bool) (vote_type : VoteType) (voted_at : Time)
      (fit : Fits (add_vote vote_type voted_at)) (s : State World) (vote : Vote) (out : World)
      → add_user_vote
          (new_romances_repository p fuel)
          (new_counters_repository p)
          p.now
          (id_of is_first id)
          vote_type
          voted_at
          s.world
        ≡ (ok vote, out)
      → (t : State World) × Steps s t
        × (t.world ≡ out)
        × (a : Accepted) × (t.log ≡ a ∷ s.log)
        × Entry is_first vote_type voted_at vote a
  add_user_vote_runs transacts_keep fuel lawful is_first vote_type voted_at fit s vote out h =
      let (n, v, bound, failed, added) =
        add_success (new_romances_repository p fuel) (new_counters_repository p) p.now
          (id_of is_first id) vote_type voted_at s.world out vote h in
      let (t, first, at, log) =
        Conflicts-Leads transacts_keep fuel lawful is_first vote_type voted_at fit s failed refl in
      let (a, (u, second, world, log'), shown) =
        Adds-Leads transacts_keep fuel lawful is_first vote_type voted_at fit t vote out
          (rw at added) in
      (u, Steps-append first second, world, a, log' ∙ ap (λ l. a ∷ l) log, shown)
