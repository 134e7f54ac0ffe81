-- ===== src/Contract.antt =====
-- The text forms of vote types in the API: what may be asked for when a vote is added or changed, and
-- what is shown (internal/context/voting/interface/api/rest/v1/contract).
pub mod Texts
use text.Mathlib.Text.{◌==◌ as str_eq}
use recs.Prelude.{String, Option, none, some, List, [], ◌∷◌, ◌==◌, if◌then◌else◌}
use recs.Errors.{Result, ok, err, invalid_vote_type}
use recs.VoteType.{
  VoteType, vote_type_yes, vote_type_no, vote_type_crush, vote_type_compliment, to_string,
}

-- a map from vote types to texts; a missing key gives the empty text
unfoldable pub text_of : VoteType → List (VoteType × String) → String
text_of v [] = ""
text_of v ((k, t) ∷ m) = if k == v then t else text_of v m

-- a map from texts to vote types
unfoldable pub type_of : String → List (String × VoteType) → Option VoteType
type_of t [] = none
type_of t ((k, v) ∷ m) = if str_eq k t then some v else type_of t m

abbrev pub add_user_vote_type_to_string : List (VoteType × String)
add_user_vote_type_to_string =
    (vote_type_yes, "yes")
    ∷ (vote_type_no, "no")
    ∷ (vote_type_crush, "crush")
    ∷ (vote_type_compliment, "compliment")
    ∷ []

abbrev pub add_user_vote_type_from_string : List (String × VoteType)
add_user_vote_type_from_string =
    ("yes", vote_type_yes)
    ∷ ("no", vote_type_no)
    ∷ ("crush", vote_type_crush)
    ∷ ("compliment", vote_type_compliment)
    ∷ []

abbrev pub change_user_vote_type_to_string : List (VoteType × String)
change_user_vote_type_to_string =
    (vote_type_yes, "yes") ∷ (vote_type_crush, "crush") ∷ (vote_type_compliment, "compliment") ∷ []

abbrev pub change_user_vote_type_from_string : List (String × VoteType)
change_user_vote_type_from_string =
    ("yes", vote_type_yes) ∷ ("crush", vote_type_crush) ∷ ("compliment", vote_type_compliment) ∷ []

-- the two `UnmarshalText`
unfoldable pub unmarshal_text : List (String × VoteType) → String → Result VoteType
unfolding type_of
unmarshal_text from_string b = elim (type_of b from_string) [
  | none ↦ err (invalid_vote_type b)
  | some v ↦ ok v
]

abbrev pub unmarshal_add_user_vote_type : String → Result VoteType
unmarshal_add_user_vote_type = unmarshal_text add_user_vote_type_from_string

abbrev pub unmarshal_change_user_vote_type : String → Result VoteType
unmarshal_change_user_vote_type = unmarshal_text change_user_vote_type_from_string

-- the three `MarshalText`
unfoldable pub marshal_add_user_vote_type : VoteType → String
unfolding text_of
marshal_add_user_vote_type v = text_of v add_user_vote_type_to_string

unfoldable pub marshal_change_user_vote_type : VoteType → String
unfolding text_of
marshal_change_user_vote_type v = text_of v change_user_vote_type_to_string

unfoldable pub marshal_read_user_vote_type : VoteType → String
unfolding to_string
marshal_read_user_vote_type v = to_string v
