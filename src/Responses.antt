-- ===== src/Responses.antt =====
-- What the API answers with (internal/context/voting/interface/api/rest/v1/response,
-- internal/app/api/response). A body is the entity's fields; a vote type is shown as its text.
pub mod Statuses
use recs.Prelude.{ℕ, String, Option, none, some, List, [], ◌∷◌, true, false, if◌then◌else◌}
use Prim.Native.String.{◌++◌ as ◌<>◌}
use recs.Errors.{
  Error, vote_not_found, wrong_vote, vote_duplicate, version_conflict, changing_vote_type,
  is_vote_not_found, is_vote_duplicate, is_wrong_vote,
}
use recs.Time.{Time}
use recs.VoteType.{VoteType, to_string}
use recs.Repositories.{CountersGroup}
use recs.Romance

pub record HumaApiError : Type 0 where
  pub status : ℕ
  pub message : String

-- what a handler returns as its error: one with a status, or the error as it is
pub data ApiError : Type 0 where
  huma : HumaApiError → ApiError
  plain : Error → ApiError

abbrev pub new_err404_not_found : String → HumaApiError
new_err404_not_found msg = record { status = 404; message = msg }

abbrev pub new_err400_bad_request : String → HumaApiError
new_err400_bad_request msg = record { status = 400; message = msg }

-- `err.Error()` for the errors of the domain; `other` is that of the rest
unfoldable pub error_text : (Error → String) → Error → String
unfolding to_string
error_text other vote_not_found = "vote not found"
error_text other wrong_vote = "wrong vote"
error_text other vote_duplicate = "vote duplicate"
error_text other version_conflict = "version conflict"
error_text other (changing_vote_type old_vote new_vote) =
    "wrong vote: vote type change from `"
    <> (to_string old_vote <> ("` to `" <> (to_string new_vote <> "` is not allowed")))
error_text other e = other e

unfoldable pub to_api_error : (Error → String) → Error → ApiError
unfolding is_vote_not_found is_vote_duplicate is_wrong_vote error_text
to_api_error other err =
    if is_vote_not_found err
    then ApiError.huma (new_err404_not_found (error_text other err))
    else if is_vote_duplicate err
    then ApiError.huma (new_err400_bad_request (error_text other err))
    else if is_wrong_vote err
    then ApiError.huma (new_err400_bad_request (error_text other err))
    else ApiError.plain err

pub record Vote : Type 0 where
  pub vote_type : VoteType
  pub voted_at : Option Time
  pub created_at : Option Time
  pub updated_at : Option Time

abbrev pub new_vote_from_entity : Romance.Vote → Vote
new_vote_from_entity vote = record {
  vote_type = vote.vote_type;
  voted_at = vote.voted_at;
  created_at = vote.created_at;
  updated_at = vote.updated_at;
}

pub record RomanceBody : Type 0 where
  pub active_user_vote : Vote
  pub peer_user_vote : Vote

-- `CreateRomanceGetResponseFromVoteEntity`
abbrev pub romance_get_response : Romance.Romance → RomanceBody
romance_get_response romance = record {
  active_user_vote = new_vote_from_entity romance.active_user_vote;
  peer_user_vote = new_vote_from_entity romance.peer_user_vote;
}

pub record CountersBody : Type 0 where
  pub incoming_yes : ℕ
  pub incoming_no : ℕ
  pub outgoing_yes : ℕ
  pub outgoing_no : ℕ

abbrev pub new_counters_group_from_entity : CountersGroup → CountersBody
new_counters_group_from_entity counters = record {
  incoming_yes = counters.incoming_yes;
  incoming_no = counters.incoming_no;
  outgoing_yes = counters.outgoing_yes;
  outgoing_no = counters.outgoing_no;
}

-- `CreateLifetimeCountersGetResponseFromCountersGroup`; the zero value has no counts
unfoldable pub lifetime_counters_get_response : Option CountersGroup → CountersBody
lifetime_counters_get_response none = record {
  incoming_yes = 0;
  incoming_no = 0;
  outgoing_yes = 0;
  outgoing_no = 0;
}
lifetime_counters_get_response (some counters) = new_counters_group_from_entity counters

-- `CreateHourlyCountersGetResponseFromCountersGroup`
unfoldable pub hourly_counters_get_response : List (ℕ × CountersGroup) → List (ℕ × CountersBody)
hourly_counters_get_response [] = []
hourly_counters_get_response ((group, counter) ∷ counters) =
    (group, new_counters_group_from_entity counter) ∷ hourly_counters_get_response counters
