-- ===== src/Operation/AddUserVote/Histories.antt =====
-- All the votes of one user on one peer between two deletions.
use recs.Prelude.{ℕ, ◌+◌, ◌≤◌, ◌≡◌, true, not, ◌&&◌, List, [], ◌∷◌, length, arith, if◌then◌else◌}
use recs.Errors.{ok}
use recs.Romance.{Vote}
use recs.VoteType.{is_positive}
use recs.Operation.Transitions.{is_vote_type_change_allowed}
use recs.Operation.Transitions.Ranks.{rank, allowed→rank}
use recs.Operation.AddUserVote.{moves_yes_counters, moves_no_counters}

-- Votes that follow one another, each allowed after the one before it.
abbrev pub Accepted : Vote → List Vote → Type 0
Accepted v [] = Unit
Accepted v (u ∷ us) = (is_vote_type_change_allowed v u.vote_type ≡ ok tt) × Accepted u us

-- how often the "yes" counters and the "no" counters move
abbrev pub yes_moves : Vote → List Vote → ℕ
yes_moves v [] = 0
yes_moves v (u ∷ us) =
    (if moves_yes_counters v.vote_type u.vote_type then 1 else 0) + yes_moves u us

abbrev pub no_moves : Vote → List Vote → ℕ
no_moves v [] = 0
no_moves v (u ∷ us) = (if moves_no_counters v.vote_type u.vote_type then 1 else 0) + no_moves u us

-- After a vote, no more votes are accepted than there are ranks above it.
pub Accepted-length : (v : Vote) (us : List Vote) → Accepted v us → rank v.vote_type + length us ≤ 3
Accepted-length v [] h = ground arith
Accepted-length v (u ∷ us) h =
    omega (arith, allowed→rank v u.vote_type h.0, Accepted-length u us h.1)

-- a vote of rank 2 or more is positive and stays so
moves_above :
    (v : Vote) (us : List Vote)
    → Accepted v us
    → 2 ≤ rank v.vote_type
    → v.vote_type ≤ 4
    → (yes_moves v us ≡ 0) × (no_moves v us ≡ 0)
unfolding moves_yes_counters moves_no_counters
moves_above v [] h r k = (omega arith, omega arith)
moves_above v (u ∷ us) h r k = ground (arith, allowed→rank v u.vote_type h.0, moves_above u us h.1)

moves_after_no :
    (v : Vote) (us : List Vote)
    → Accepted v us
    → 1 ≤ rank v.vote_type
    → v.vote_type ≤ 4
    → (yes_moves v us ≤ 1) × (no_moves v us ≡ 0)
unfolding moves_yes_counters moves_no_counters
moves_after_no v [] h r k = (omega arith, omega arith)
moves_after_no v (u ∷ us) h r k =
    ground (arith, allowed→rank v u.vote_type h.0, moves_above u us h.1)

pub yes_and_no_once :
    (v : Vote) (us : List Vote) → Accepted v us → (yes_moves v us ≤ 1) × (no_moves v us ≤ 1)
unfolding moves_yes_counters moves_no_counters
yes_and_no_once v [] h = (omega arith, omega arith)
yes_and_no_once v (u ∷ us) h =
    ground (arith, allowed→rank v u.vote_type h.0, moves_after_no u us h.1, moves_above u us h.1)

-- the vote after some votes
abbrev pub last : Vote → List Vote → Vote
last v [] = v
last v (u ∷ us) = last u us

-- a positive vote stays positive
last-is_positive :
    (v : Vote) (us : List Vote)
    → Accepted v us
    → is_positive v.vote_type ≡ true
    → is_positive (last v us).vote_type ≡ true
unfolding is_positive
last-is_positive v [] h p = p
last-is_positive v (u ∷ us) h p =
    last-is_positive u us h.1 (ground (arith, allowed→rank v u.vote_type h.0))

pub yes_moves-last :
    (v : Vote) (us : List Vote)
    → Accepted v us
    → yes_moves v us
      ≡ (if is_positive (last v us).vote_type && not (is_positive v.vote_type) then 1 else 0)
unfolding moves_yes_counters
yes_moves-last v [] h = ground arith
yes_moves-last v (u ∷ us) h =
    ground
      (arith, yes_moves-last u us h.1, last-is_positive u us h.1, allowed→rank v u.vote_type h.0)
