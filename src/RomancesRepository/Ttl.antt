-- ===== src/RomancesRepository/Ttl.antt =====
-- `getTtlSecondsForVotesPair`
-- (internal/context/voting/infrastructure/persistence/romances_repository.go).
use recs.Prelude.{◌&&◌, ◌||◌, if◌then◌else◌}
use recs.Prelude.Int.{ℤ}
use recs.Config.{Config}
use recs.VoteType.{VoteType, is_positive, is_negative}

unfoldable pub get_ttl_seconds_for_votes_pair : Config → VoteType → VoteType → ℤ
unfolding is_positive is_negative
get_ttl_seconds_for_votes_pair config active_user_vote_type peer_user_vote_type =
    if is_negative active_user_vote_type || is_negative peer_user_vote_type
    then config.romances.dead_romance_ttl_seconds
    else if is_positive active_user_vote_type && is_positive peer_user_vote_type
    then config.romances.mutual_romance_ttl_seconds
    else config.romances.non_mutual_romance_ttl_seconds
