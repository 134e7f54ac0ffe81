-- ===== src/VoteType.antt =====
-- Vote types: a uint8 with five named values
-- (internal/context/voting/domain/romance/valueobject/vote_type.go).
use recs.Prelude.{ℕ, String, Bool, ◌||◌, ◌==◌, if◌then◌else◌}

abbrev pub VoteType : Type 0
VoteType = ℕ

abbrev pub vote_type_empty : VoteType
vote_type_empty = 0

abbrev pub vote_type_yes : VoteType
vote_type_yes = 1

abbrev pub vote_type_no : VoteType
vote_type_no = 2

abbrev pub vote_type_crush : VoteType
vote_type_crush = 3

abbrev pub vote_type_compliment : VoteType
vote_type_compliment = 4

unfoldable pub is_positive : VoteType → Bool
is_positive v = v == vote_type_yes || (v == vote_type_crush || v == vote_type_compliment)

unfoldable pub is_negative : VoteType → Bool
is_negative v = v == vote_type_no

unfoldable pub is_empty : VoteType → Bool
is_empty v = v == vote_type_empty

-- `UserVoteTypeToString[v]`; a missing key gives the zero value, the empty text
unfoldable pub to_string : VoteType → String
to_string v =
    if v == vote_type_empty
    then "empty"
    else if v == vote_type_yes
    then "yes"
    else if v == vote_type_no
    then "no"
    else if v == vote_type_crush
    then "crush"
    else if v == vote_type_compliment
    then "compliment"
    else ""
