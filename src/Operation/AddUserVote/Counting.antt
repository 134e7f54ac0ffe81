-- ===== src/Operation/AddUserVote/Counting.antt =====
-- How often the counters are moved by all the votes of one user on one peer.
use recs.Prelude.{ℕ, ◌+◌, ◌≡◌, true, List, [], ◌∷◌, if◌then◌else◌}
use recs.Errors.{Error, ok, err, is_version_conflict}
use recs.SharedKernel.{VoteId}
use recs.Time.{Time}
use recs.VoteType.{VoteType}
use recs.Romance.{Vote, Romance}
use recs.Repositories.{RomancesRepository, CountersRepository, CounterUpdateGroup}
use recs.Operation.AddUserVote.{add_user_vote, moves_yes_counters, moves_no_counters}

-- What one watches of a user's votes on a peer: the vote that is stored, and how often the "yes" and
-- the "no" counters were moved for it.
pub record Watched : Type 0 where
  pub stored : Vote
  pub yes : ℕ
  pub no : ℕ

module _ {World : Type 0} (romances : RomancesRepository World)
    (counters : CountersRepository World) (now : World → Time × World) (vote_id : VoteId)
    (watch : World → Watched) where
  -- What the stores and the clock do to what is watched: a read finds the stored vote, a write stores
  -- the vote that it returns, one that meets a version conflict stores nothing, and each call that
  -- moves counters is counted.
  pub record IsWatch : Type 0 where
    pub get_romance : (w : World) → watch (romances.get_romance vote_id w).1 ≡ watch w
    pub found :
        (w w' : World) (r : Romance)
        → romances.get_romance vote_id w ≡ (ok r, w')
        → r.active_user_vote ≡ (watch w).stored
    pub looked : (w : World) → watch (now w).1 ≡ watch w
    pub written :
        (r updated : Romance) (vote_type : VoteType) (voted_at : Time) (w w' : World)
        → romances.add_active_user_vote_to_romance r vote_type voted_at w ≡ (ok updated, w')
        → (updated.active_user_vote.vote_type ≡ vote_type)
          × (watch w' ≡ record (watch w) { stored = updated.active_user_vote })
    pub conflicted :
        (r : Romance) (vote_type : VoteType) (voted_at : Time) (e : Error) (w w' : World)
        → romances.add_active_user_vote_to_romance r vote_type voted_at w ≡ (err e, w')
        → is_version_conflict e ≡ true
        → watch w' ≡ watch w
    pub yes :
        (group : CounterUpdateGroup) (w : World)
        → watch (counters.incr_yes_counters vote_id group w)
          ≡ record (watch w) { yes = (watch w).yes + 1 }
    pub no :
        (group : CounterUpdateGroup) (w : World)
        → watch (counters.incr_no_counters vote_id group w)
          ≡ record (watch w) { no = (watch w).no + 1 }

  -- Votes that are cast one after another: each by a run of the operation that returns it; between
  -- them anything else may happen that leaves what is watched as it is.
  pub data Cast : World → List Vote → World → Type 0 where
    none_cast : {w : World} → Cast w [] w
    others : {w w' v : World} {us : List Vote} → watch w' ≡ watch w → Cast w' us v → Cast w us v
    casts :
        {w w' v : World} {u : Vote} {us : List Vote} (vote_type : VoteType) (voted_at : Time)
        → add_user_vote romances counters now vote_id vote_type voted_at w ≡ (ok u, w')
        → Cast w' us v
        → Cast w (u ∷ us) v

  -- what is watched after a vote that is allowed
  abbrev counted : Watched → Vote → Watched
  counted s u = record {
    stored = u;
    yes = s.yes + (if moves_yes_counters s.stored.vote_type u.vote_type then 1 else 0);
    no = s.no + (if moves_no_counters s.stored.vote_type u.vote_type then 1 else 0);
  }
