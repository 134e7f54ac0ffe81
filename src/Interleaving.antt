-- ===== src/Interleaving.antt =====
-- Requests for the votes of one pair that are processed at the same time: each reads the pair's romance
-- and then writes to it, as the loops of the add, change and delete operations do
-- (internal/context/voting/application/operation/{add,change,delete}_user_vote_operation.go), for
-- either user of the pair, with what others do in between.
pub mod Admission
pub mod Effects
pub mod Conflicts
pub mod Serial
pub mod Invariant
pub mod Runs
use mathlib.Core.List.{Memᴰ}
use recs.Prelude.{◌^◌, ◌<◌, String, ◌≡◌, Bool, true, false, not, Option, none, some, List, [], ◌∷◌}
use recs.Errors.{Error, ok, err, is_version_conflict}
use recs.Action.{Action, pure, ◌>>=◌}
use recs.SharedKernel.{VoteId, to_peer_vote_id}
use recs.Time.{Time}
use recs.VoteType.{VoteType}
use recs.Romance.{Romance, is_empty}
use recs.Dynamo.Attributes.{Item}
use recs.Documents.Decoding.{is_int32}
use recs.Platform.{Platform}
use recs.RomancesRepository.Get.{romances_table_name, get_romance}
use recs.RomancesRepository.Represents.{row_key}
use recs.RomancesRepository.Writes.{
  add_active_user_vote_to_romance, change_active_user_vote_type_in_romance,
  delete_active_user_vote_from_romance,
}

-- what an operation writes
pub data Write : Type 0 where
  add_vote : VoteType → Time → Write
  change_vote : VoteType → Write
  delete_vote : Write

-- a romance that was read, by the user whose id comes first in the pair's, or by the other
pub record Held : Type 0 where
  pub is_first : Bool
  pub romance : Romance

-- a write that the database accepted, to a romance that was read, when it was made, and the romance
-- that came back, if one does
pub record Accepted : Type 0 where
  pub held : Held
  pub write : Write
  pub now : Time
  pub answer : Option Romance

-- the log has the latest write first
pub record State (World : Type 0) : Type 0 where
  pub world : World
  pub held : List Held
  pub log : List Accepted

-- the pair's id, as one of the two users gives it
abbrev pub id_of : Bool → VoteId → VoteId
id_of true id = id
id_of false id = to_peer_vote_id id

-- The deletion of an empty romance writes nothing.
abbrev pub writes : Write → Romance → Bool
writes delete_vote romance = not (is_empty romance)
writes _ romance = true

-- a vote type is a byte, and the time of a vote fits an int32
abbrev pub Fits : Write → Type 0
Fits (add_vote vote_type voted_at) = (vote_type < 256) × (is_int32 voted_at.unix ≡ true)
Fits (change_vote vote_type) = vote_type < 256
Fits delete_vote = Unit

module _ {World : Type 0} (p : Platform World) where
  -- the call that writes to a romance
  unfoldable pub write_to : Write → Romance → Action World (Option Romance)
  write_to (add_vote vote_type voted_at) romance = do
    updated ← add_active_user_vote_to_romance p romance vote_type voted_at
    pure (some updated)
  write_to (change_vote vote_type) romance = do
    updated ← change_active_user_vote_type_in_romance p romance vote_type
    pure (some updated)
  write_to delete_vote romance = do done ← delete_active_user_vote_from_romance p romance; pure none

  module _ (stored : World → String → Item → Item) (id : VoteId) where
    pub data Step (s : State World) (t : State World) : Type 0 where
      -- a request reads the romance
      reads :
          (is_first : Bool) (romance : Romance) (w : World)
          → get_romance p (id_of is_first id) s.world ≡ (ok romance, w)
          → t ≡ record s {
            world = w;
            held = record { is_first = is_first; romance = romance } ∷ s.held;
          }
          → Step s t
      -- a request that has read it writes to it
      accepts :
          (held : Held) (write : Write) (answer : Option Romance) (w : World)
          → Memᴰ held s.held
          → Fits write
          → writes write held.romance ≡ true
          → write_to write held.romance s.world ≡ (ok answer, w)
          → t ≡ record s {
            world = w;
            log =
                record { held = held; write = write; now = (p.now s.world).0; answer = answer }
                ∷ s.log;
          }
          → Step s t
      -- or fails to, for another version is stored
      conflicts :
          (held : Held) (write : Write) (e : Error) (w : World)
          → Memᴰ held s.held
          → Fits write
          → write_to write held.romance s.world ≡ (err e, w)
          → is_version_conflict e ≡ true
          → t ≡ record s { world = w }
          → Step s t
      -- anything else that leaves the pair's row as it is
      others :
          (w : World)
          → stored w romances_table_name (row_key p id)
            ≡ stored s.world romances_table_name (row_key p id)
          → t ≡ record s { world = w }
          → Step s t

    pub data Reach (w : World) : State World → Type 0 where
      start : Reach w (record { world = w; held = []; log = [] })
      next : {s t : State World} → Reach w s → Step s t → Reach w t
