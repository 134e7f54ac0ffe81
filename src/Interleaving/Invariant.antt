-- ===== src/Interleaving/Invariant.antt =====
-- In every interleaving the writes that were accepted form a series.
use mathlib.Core.List.{Memᴰ}
use mathlib.Core.List.Memᴰ.{head, tail}
use recs.Prelude.{
  ◌+◌, ◌^◌, ◌<◌, ◌≤◌, String, ◌≡◌, refl, sym, ap, ◌∙◌, Bool, true, false, List, [], ◌∷◌, length,
  arith,
}
use recs.SharedKernel.{VoteId, to_peer_vote_id}
use recs.SharedKernel.Validity.{IsVoteId, to_peer_vote_id-IsVoteId}
use recs.Romance.{Romance}
use recs.Dynamo.Attributes.{Item}
use recs.Documents.Decoding.{is_int32}
use recs.Platform.{Platform}
use recs.RomancesRepository.Represents.{IsLawful}
use recs.RomancesRepository.Reading.{Represents-peer, row_key-peer, IsLawful-peer}
use recs.Interleaving.{
  Held, State, id_of, Step, reads, accepts, conflicts, others, Reach, start, next,
}
use recs.Interleaving.Effects.{after}
use recs.Interleaving.Serial.{
  seen_by, Serial, unwritten, written, after-version, seen_by-version, Represents-id, RowOf,
  read_at, accepted_at, conflicted_at,
}

-- What a romance that was read is to the one that stands: an earlier version, or the same romance.
pub record IsPast (id : VoteId) (current : Romance) (h : Held) : Type 0 where
  pub own : h.romance.active_user_vote.id ≡ id_of h.is_first id
  pub past : h.romance.version ≤ current.version
  pub same : h.romance.version ≡ current.version → h.romance ≡ seen_by h.is_first current

module _ {World : Type 0} (p : Platform World) (stored : World → String → Item → Item) (id : VoteId)
    (valid : IsVoteId id) (lawful : IsLawful p stored id)
    (now_int32 : (w : World) → is_int32 (p.now w).0.unix ≡ true) where
  -- either user of the pair, and the row as that user sees it
  valid_of : (b : Bool) → IsVoteId (id_of b id)
  valid_of true = valid
  valid_of false = to_peer_vote_id-IsVoteId id valid

  lawful_of : (b : Bool) → IsLawful p stored (id_of b id)
  lawful_of true = lawful
  lawful_of false = IsLawful-peer p stored id valid lawful

  to_side :
      (b : Bool) (w : World) (c : Romance)
      → RowOf p stored now_int32 id w c
      → RowOf p stored now_int32 (id_of b id) w (seen_by b c)
  to_side true w c h = h
  to_side false w c h = rw (row_key-peer p stored id valid) (Represents-peer p stored id valid h)

  from_side :
      (b : Bool) (w : World) (c : Romance)
      → RowOf p stored now_int32 (id_of b id) w c
      → RowOf p stored now_int32 id w (seen_by b c)
  unfolding to_peer_vote_id
  from_side true w c h = h
  from_side false w c h =
      rw (sym (row_key-peer p stored id valid))
        (Represents-peer p stored (to_peer_vote_id id) (to_peer_vote_id-IsVoteId id valid) h)

  seen_twice : (b : Bool) (c : Romance) → seen_by b (seen_by b c) ≡ c
  seen_twice true c = refl
  seen_twice false c = refl

  -- The pair's row stands for a romance that a series of the accepted writes leads to, and each
  -- romance that was read is an earlier one, or that one.
  pub record IsSerial (r : Romance) (s : State World) : Type 0 where
    pub current : Romance
    pub stands : RowOf p stored now_int32 id s.world current
    pub serial : Serial r s.log current
    pub counted : current.version ≡ r.version + length s.log
    pub past : (h : Held) → Memᴰ h s.held → IsPast id current h

  start-IsSerial :
      (r : Romance) (w : World)
      → RowOf p stored now_int32 id w r
      → IsSerial r (record { world = w; held = []; log = [] })
  start-IsSerial r w b = record {
    current = r;
    stands = b;
    serial = unwritten;
    counted = omega arith;
    past = λ h m. elim m [ ];
  }

  cons-IsPast :
      (current : Romance) (x : Held) (l : List Held)
      → IsPast id current x
      → ((h : Held) → Memᴰ h l → IsPast id current h)
      → (h : Held) → Memᴰ h (x ∷ l)
      → IsPast id current h
  cons-IsPast current x l q qs h (head e) = rw e q
  cons-IsPast current x l q qs h (tail m) = qs h m

  -- the romance that stands is not earlier than itself
  current-IsPast :
      (b : Bool) (current romance : Romance) (w : World)
      → RowOf p stored now_int32 (id_of b id) w (seen_by b current)
      → romance ≡ seen_by b current
      → IsPast id current (record { is_first = b; romance = romance })
  current-IsPast b current romance w view e = record {
    own = rw e (Represents-id p (id_of b id) view);
    past = omega (arith, ap (λ x. x.version) e, seen_by-version b current);
    same = λ k. e;
  }

  -- what was read before is earlier than a later version
  later-IsPast :
      (current left : Romance) (h : Held)
      → left.version ≡ current.version + 1
      → IsPast id current h
      → IsPast id left h
  later-IsPast current left h e q = record {
    own = q.own;
    past = omega (arith, q.past);
    same = λ k. absurd (omega (arith, q.past));
  }

  Step-IsSerial :
      (r : Romance) (s t : State World)
      → r.version + length t.log + 1 < 2 ^ 32
      → Step p stored id s t
      → IsSerial r s
      → IsSerial r t
  Step-IsSerial r s t room (reads b romance w g e) i = rw e (
      let view = to_side b s.world i.current i.stands in
      let (same, kept) =
        read_at p stored now_int32 (id_of b id) (seen_by b i.current) romance s.world w
          (Represents-id p (id_of b id) view) (valid_of b) (lawful_of b) view g in
      record {
        current = i.current;
        stands = rw kept i.stands;
        serial = i.serial;
        counted = i.counted;
        past =
            cons-IsPast i.current _ s.held (current-IsPast b i.current romance s.world view same)
              i.past;
      })
  Step-IsSerial r s t room (accepts h write a w m fit n f e) i = rw e (
      let q = i.past h m in
      let (same, shown, stands) =
        accepted_at p stored now_int32 (id_of h.is_first id) h.romance
          (seen_by h.is_first i.current) s.world w write a q.own (valid_of h.is_first)
          (lawful_of h.is_first) (to_side h.is_first s.world i.current i.stands)
          (λ k. q.same (k ∙ seen_by-version h.is_first i.current))
          (omega (arith, i.counted, seen_by-version h.is_first i.current, ap (λ x. length x.log) e))
          fit n f in
      let left = after write (p.now s.world).0 h.romance in
      let next_version : (seen_by h.is_first left).version ≡ i.current.version + 1 = omega (
        arith,
        seen_by-version h.is_first left,
        after-version write (p.now s.world).0 h.romance,
        ap (λ x. x.version) same,
        seen_by-version h.is_first i.current,
      ) in
      record {
        current = seen_by h.is_first left;
        stands = from_side h.is_first w left stands;
        serial = written _ i.serial same shown refl;
        counted = omega (arith, next_version, i.counted);
        past = λ x k. later-IsPast i.current (seen_by h.is_first left) x next_version (i.past x k);
      })
  Step-IsSerial r s t room (conflicts h write x w m fit f c e) i = rw e (
      let q = i.past h m in
      let kept =
        conflicted_at p stored now_int32 (id_of h.is_first id) h.romance
          (seen_by h.is_first i.current) s.world w write x q.own (valid_of h.is_first)
          (lawful_of h.is_first) (to_side h.is_first s.world i.current i.stands)
          (λ k. q.same (k ∙ seen_by-version h.is_first i.current))
          (omega (arith, q.past, i.counted, ap (λ x. length x.log) e)) fit f c in
      record {
        current = i.current;
        stands = rw kept i.stands;
        serial = i.serial;
        counted = i.counted;
        past = i.past;
      })
  Step-IsSerial r s t room (others w k e) i = rw e (record {
    current = i.current;
    stands = rw k i.stands;
    serial = i.serial;
    counted = i.counted;
    past = i.past;
  })

  log_grows : {s t : State World} → Step p stored id s t → length s.log ≤ length t.log
  log_grows (reads b romance w g e) = omega (arith, ap (λ x. length x.log) e)
  log_grows (accepts h write a w m fit n f e) = omega (arith, ap (λ x. length x.log) e)
  log_grows (conflicts h write x w m fit f c e) = omega (arith, ap (λ x. length x.log) e)
  log_grows (others w k e) = omega (arith, ap (λ x. length x.log) e)

  -- Requests of either user of a pair that overlap in any way lose no update: from a row that stands
  -- for a romance on, the writes that were accepted form a series, in which each was made to the
  -- romance that the one before it left, and answered with what it makes of it; the row stands for
  -- the romance that the series leads to, whose version has gone up by one for each write. Nobody
  -- deletes the row meanwhile, no write fails otherwise than by a version conflict or without effect,
  -- the versions have room in a uint32, and the clock's time fits an int32.
  pub Reach-IsSerial :
      (r : Romance) (w : World) (s : State World)
      → RowOf p stored now_int32 id w r
      → r.version + length s.log + 1 < 2 ^ 32
      → Reach p stored id w s
      → IsSerial r s
  Reach-IsSerial r w s b room start = start-IsSerial r w b
  Reach-IsSerial r w s b room (next {s = before} reached step) =
      Step-IsSerial r before s room step
        (Reach-IsSerial r w before b (omega (arith, log_grows step)) reached)
