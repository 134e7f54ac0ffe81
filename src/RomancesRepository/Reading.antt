-- ===== src/RomancesRepository/Reading.antt =====
-- What the two users of a pair read.
use recs.Prelude.{◌+◌, ◌^◌, ◌<◌, String, ◌≡◌, refl, ap, sym, ◌∙◌, true, Option, arith}
use recs.Errors.{ok}
use recs.SharedKernel.{VoteId, to_peer_vote_id}
use recs.SharedKernel.Validity.{IsVoteId, to_peer_vote_id-IsVoteId}
use recs.Time.{Time}
use recs.VoteType.{VoteType}
use recs.Romance.{Romance, create_empty_romance}
use recs.Dynamo.Attributes.{Item}
use recs.Dynamo.Contract.{or_empty}
use recs.Documents.Decoding.{is_int32, document_of}
use recs.Platform.{Platform}
use recs.RomancesRepository.PrimaryKey.Symmetry.{primary_key-peer, is_partition_key-to_peer_vote_id}
use recs.RomancesRepository.Transform.Perspective.{swap_romance, assemble-peer}
use recs.RomancesRepository.Get.{
  romances_table_name, get_romance, get_input, read_romance, get_romances_table_key,
}
use recs.RomancesRepository.Represents.{
  IsLawful, Represents, absent, row, is_pk, row_key, read_romance-Represents,
}
use recs.RomancesRepository.Writes.{add_active_user_vote_to_romance, add_input}
use recs.RomancesRepository.Writes.Refinement.{voted}
use recs.RomancesRepository.Storage.{add_stores}

module _ {World : Type 0} (p : Platform World) (stored : World → String → Item → Item) (id : VoteId)
    (valid : IsVoteId id) where
  -- A row stands for a romance and, seen by the other user, for its mirror image.
  pub Represents-peer :
      {item : Item} {r : Romance}
      → Represents p id item r
      → Represents p (to_peer_vote_id id) item (swap_romance r)
  unfolding create_empty_romance to_peer_vote_id
  Represents-peer (absent e f) = absent e (ap swap_romance f)
  Represents-peer {item} {r} (row h) = row (record {
    base = record {
      fitting = h.fitting;
      pk_id = rw (primary_key-peer id valid) h.pk_id;
      sk_id = rw (primary_key-peer id valid) h.sk_id;
      meaning =
          ap swap_romance h.meaning
          ∙ (sym (assemble-peer (is_pk p id) (document_of item) id)
              ∙ rw (is_partition_key-to_peer_vote_id id valid));
    };
    versioned = h.versioned;
    positive = h.positive;
  })

  pub row_key-peer : row_key p (to_peer_vote_id id) ≡ row_key p id
  row_key-peer = ap (get_romances_table_key p) (primary_key-peer id valid)

  module _ (lawful : IsLawful p stored id) where
    pub IsLawful-peer : IsLawful p stored (to_peer_vote_id id)
    IsLawful-peer = record {
      database = lawful.database;
      unmarshal = lawful.unmarshal;
      clock_keeps = lawful.clock_keeps;
      parse_pk = rw (primary_key-peer id valid) lawful.parse_pk;
      parse_sk = rw (primary_key-peer id valid) lawful.parse_sk;
    }

    get_call :
        {o : Option Item} (w : World)
        → (p.client.get_item (get_input p id) w).0 ≡ ok o
        → get_romance p id w ≡ read_romance p id o (p.client.get_item (get_input p id) w).1
    unfolding get_romance
    get_call w answer = ground arith

    found :
        {o : Option Item} (w : World)
        → (p.client.get_item (get_input p id) w).0 ≡ ok o
        → or_empty o ≡ stored w romances_table_name (row_key p id)
    unfolding get_input
    found {o} w answer = lawful.database.get_item_reads (get_input p id) w o refl answer

    pub get_romance-reads_at :
        {r : Romance} {o : Option Item} (w : World)
        → (p.client.get_item (get_input p id) w).0 ≡ ok o
        → Represents p id (stored w romances_table_name (row_key p id)) r
        → get_romance p id w ≡ (ok r, (p.client.get_item (get_input p id) w).1)
    get_romance-reads_at {r} {o} w answer h =
        get_call w answer
        ∙ read_romance-Represents p stored id valid lawful o
            (p.client.get_item (get_input p id) w).1 (rw (found w answer) h)

    -- When the database answers, the romance that is read is the one that the stored row stands for.
    pub get_romance-reads :
        {r : Romance} {o : Option Item} (w : World)
        → (p.client.get_item (get_input p id) w).0 ≡ ok o
        → Represents p id (stored w romances_table_name (row_key p id)) r
        → (get_romance p id w).0 ≡ ok r
    get_romance-reads w answer h = ap (λ x. x.0) (get_romance-reads_at w answer h)

module _ {World : Type 0} (p : Platform World) (stored : World → String → Item → Item) (r : Romance)
    (valid : IsVoteId r.active_user_vote.id) (lawful : IsLawful p stored r.active_user_vote.id)
    (vote_type : VoteType) (voted_at : Time) (w : World) where
  -- After a vote is added to the romance that the stored row stands for, the other user of the pair
  -- reads the mirror image of the romance with that vote: it is the peer's vote there, and the
  -- reader's own vote is what it was. The database answers both calls, the version has room in a
  -- uint32 and the times in an int32.
  pub peer_reads_added :
      {new : Item} {o : Option Item}
      → (p.client.update_item (add_input p r vote_type voted_at (p.now w).0) (p.now w).1).0 ≡ ok new
      → (p.client.get_item
          (get_input p (to_peer_vote_id r.active_user_vote.id))
          (add_active_user_vote_to_romance p r vote_type voted_at w).1).0
        ≡ ok o
      → Represents p r.active_user_vote.id
          (stored w romances_table_name (row_key p r.active_user_vote.id))
          r
      → r.version + 1 < 2 ^ 32
      → vote_type < 256
      → is_int32 voted_at.unix ≡ true
      → is_int32 (p.now w).0.unix ≡ true
      → (get_romance p
          (to_peer_vote_id r.active_user_vote.id)
          (add_active_user_vote_to_romance p r vote_type voted_at w).1).0
        ≡ ok (swap_romance (voted r vote_type voted_at (p.now w).0))
  peer_reads_added answer found before room a x y =
      let after =
        add_stores p stored r valid lawful vote_type voted_at w answer before room a x y in
      get_romance-reads p stored (to_peer_vote_id r.active_user_vote.id)
        (to_peer_vote_id-IsVoteId r.active_user_vote.id valid)
        (IsLawful-peer p stored r.active_user_vote.id valid lawful)
        (add_active_user_vote_to_romance p r vote_type voted_at w).1 found
        (rw (row_key-peer p stored r.active_user_vote.id valid)
          (Represents-peer p stored r.active_user_vote.id valid after.1))
