-- ===== src/Interleaving/Serial.antt =====
-- Requests that overlap have the effect of requests that come one after another.
use mathlib.Core.Path.{subst}
use recs.Prelude.{
  ◌+◌, ◌^◌, ◌<◌, String, ◌≡◌, refl, sym, ap, ◌∙◌, Bool, true, false, Option, List, [], ◌∷◌,
}
use recs.Errors.{Error, ok, err, is_version_conflict}
use recs.SharedKernel.{VoteId}
use recs.SharedKernel.Validity.{IsVoteId}
use recs.Time.{Time}
use recs.Romance.{Romance, create_empty_romance}
use recs.Dynamo.Attributes.{Item}
use recs.Documents.Decoding.{is_int32, document_of}
use recs.Platform.{Platform}
use recs.RomancesRepository.Get.{romances_table_name, get_romance}
use recs.RomancesRepository.Transform.{assemble_romance}
use recs.RomancesRepository.Transform.Perspective.{swap_romance}
use recs.RomancesRepository.Represents.{IsLawful, Represents, absent, row, row_key, is_pk}
use recs.Persistence.Rows.{read_done}
use recs.Interleaving.{Write, add_vote, change_vote, delete_vote, Accepted, writes, Fits, write_to}
use recs.Interleaving.Admission.{write_same}
use recs.Interleaving.Effects.{after, Shows, write_done}
use recs.Interleaving.Conflicts.{write_kept}

-- a romance as one of the two users sees it
abbrev pub seen_by : Bool → Romance → Romance
seen_by true r = r
seen_by false r = swap_romance r

-- One write after another, from a romance to another: each was made to the romance that the one
-- before left, and shows in its answer what it makes of it. The latest stands first.
pub data Serial (r : Romance) : List Accepted → Romance → Type 0 where
  unwritten : Serial r [] r
  written :
      {log : List Accepted} {before left : Romance} (a : Accepted)
      → Serial r log before
      → a.held.romance ≡ seen_by a.held.is_first before
      → Shows a.answer (after a.write a.now a.held.romance)
      → left ≡ seen_by a.held.is_first (after a.write a.now a.held.romance)
      → Serial r (a ∷ log) left

pub after-version :
    (write : Write) (now : Time) (r : Romance) → (after write now r).version ≡ r.version + 1
after-version (add_vote vote_type voted_at) now r = refl
after-version (change_vote vote_type) now r = refl
after-version delete_vote now r = refl

pub seen_by-version : (is_first : Bool) (r : Romance) → (seen_by is_first r).version ≡ r.version
seen_by-version true r = refl
seen_by-version false r = refl

assemble_romance-id :
    (b : Bool) (item : Item) (id : VoteId)
    → (assemble_romance b (document_of item) id).active_user_vote.id ≡ id
unfolding assemble_romance
assemble_romance-id true item id = refl
assemble_romance-id false item id = refl

module _ {World : Type 0} (p : Platform World) where
  pub Represents-id :
      (i : VoteId) {item : Item} {c : Romance} → Represents p i item c → c.active_user_vote.id ≡ i
  unfolding create_empty_romance
  Represents-id i (absent e f) = ap (λ x. x.active_user_vote.id) f
  Represents-id i {item} (row h) =
      ap (λ x. x.active_user_vote.id) h.meaning ∙ assemble_romance-id (is_pk p i) item i

module _ {World : Type 0} (p : Platform World) (stored : World → String → Item → Item)
    (now_int32 : (w : World) → is_int32 (p.now w).0.unix ≡ true) where
  -- the row of a pair, under the id that one of its users gives
  abbrev pub RowOf : VoteId → World → Romance → Type 0
  RowOf i w c = Represents p i (stored w romances_table_name (row_key p i)) c

  pub read_at :
      (i : VoteId) (c r : Romance) (w w' : World)
      → c.active_user_vote.id ≡ i
      → IsVoteId i
      → IsLawful p stored i
      → RowOf i w c
      → get_romance p i w ≡ (ok r, w')
      → (r ≡ c) × (stored w' ≡ stored w)
  read_at i c r w w' e =
      subst
        (λ (j : VoteId).
          IsVoteId j
          → IsLawful p stored j
          → RowOf j w c
          → get_romance p j w ≡ (ok r, w')
          → (r ≡ c) × (stored w' ≡ stored w))
        e (λ v l b g. read_done p stored c v l w w' r b g)

  pub accepted_at :
      (i : VoteId) (r c : Romance) (w w' : World) (write : Write) (a : Option Romance)
      → r.active_user_vote.id ≡ i
      → IsVoteId i
      → IsLawful p stored i
      → RowOf i w c
      → (r.version ≡ c.version → r ≡ c)
      → c.version + 1 < 2 ^ 32
      → Fits write
      → writes write r ≡ true
      → write_to p write r w ≡ (ok a, w')
      → (r ≡ c) × Shows a (after write (p.now w).0 r) × RowOf i w' (after write (p.now w).0 r)
  accepted_at i r c w w' write a e =
      subst
        (λ (j : VoteId).
          IsVoteId j
          → IsLawful p stored j
          → RowOf j w c
          → (r.version ≡ c.version → r ≡ c)
          → c.version + 1 < 2 ^ 32
          → Fits write
          → writes write r ≡ true
          → write_to p write r w ≡ (ok a, w')
          → (r ≡ c) × Shows a (after write (p.now w).0 r) × RowOf j w' (after write (p.now w).0 r))
        e
        (λ v l b agrees room fit n h.
          let same = write_same p stored r c l w write a w' n h b in
          let e : r ≡ c = agrees same in
          let (x, y) =
            write_done p stored r v l (rw same room) now_int32 w w' write a fit n h
              (subst (λ (x : Romance). RowOf r.active_user_vote.id w x) (sym e) b) in
          (e, x, y))

  pub conflicted_at :
      (i : VoteId) (r c : Romance) (w w' : World) (write : Write) (e : Error)
      → r.active_user_vote.id ≡ i
      → IsVoteId i
      → IsLawful p stored i
      → RowOf i w c
      → (r.version ≡ c.version → r ≡ c)
      → r.version + 1 < 2 ^ 32
      → Fits write
      → write_to p write r w ≡ (err e, w')
      → is_version_conflict e ≡ true
      → stored w' ≡ stored w
  conflicted_at i r c w w' write e same =
      subst
        (λ (j : VoteId).
          IsVoteId j
          → IsLawful p stored j
          → RowOf j w c
          → (r.version ≡ c.version → r ≡ c)
          → r.version + 1 < 2 ^ 32
          → Fits write
          → write_to p write r w ≡ (err e, w')
          → is_version_conflict e ≡ true
          → stored w' ≡ stored w)
        same
        (λ v l b agrees room fit h k.
          write_kept p stored r v l room now_int32 w w' e c b agrees write fit h k)
