-- ===== src/RomancesRepository/Represents.antt =====
-- What a stored row stands for: a romance, from the point of view of one user of its pair. And what
-- the platform is assumed to do for the operations on that row.
use recs.Prelude.{
  String, ◌≡◌, ◌≢◌, refl, ap, sym, ◌∙◌, Bool, true, Option, none, some, [], ◌∷◌, arith, Bool-cases,
  inl, inr,
}
use recs.Prelude.Int.{pos}
use recs.Errors.{ok}
use recs.SharedKernel.{VoteId, country_id, active_user_id}
use recs.SharedKernel.Validity.{IsVoteId}
use recs.Time.{unix_to_time_ptr}
use recs.SharedKernel.{to_peer_vote_id}
use recs.Romance.{Romance, create_empty_romance}
use recs.Dynamo.Attributes.{Item, AttributeValue, get}
use recs.Dynamo.Expressions.{or_key}
use recs.Dynamo.Contract.{IsDocumented, or_empty}
use recs.Documents.Decoding.{document_of, fits, IsUnmarshal}
use recs.Platform.{Platform}
use recs.RomancesRepository.PrimaryKey.{new_romance_primary_key, is_partition_key}
use recs.RomancesRepository.Transform.{transform_romance_item_to_entity, assemble_romance}
use recs.RomancesRepository.Transform.Perspective.{transform_lem}
use recs.RomancesRepository.Get.{get_romances_table_key, read_romance}
use recs.RomancesRepository.Writes.{read_updated}

module _ {World : Type 0} (p : Platform World) (id : VoteId) where
  abbrev pub row_key : Item
  row_key = get_romances_table_key p (new_romance_primary_key id)

  -- the active user is the partition key of the row
  abbrev pub is_pk : Bool
  is_pk = is_partition_key (new_romance_primary_key id) (active_user_id id)

  -- An item that has the pair's ids and decodes to a romance.
  pub record IsBase (item : Item) (r : Romance) : Type 0 where
    pub fitting : fits item ≡ true
    pub pk_id :
        get "a" item ≡ some (AttributeValue.s (p.uuid_string (new_romance_primary_key id).pk))
    pub sk_id :
        get "b" item ≡ some (AttributeValue.s (p.uuid_string (new_romance_primary_key id).sk))
    pub meaning : r ≡ assemble_romance is_pk (document_of item) id

  -- A stored row: it has a version, which is not 0.
  pub record IsRow (item : Item) (r : Romance) : Type 0 where
    pub base : IsBase item r
    pub open base use *
    pub versioned : get "v" item ≡ some (AttributeValue.n (pos r.version))
    pub positive : r.version ≢ 0

  -- What is stored for a romance: nothing, for the empty one, or a row.
  pub data Represents (item : Item) (r : Romance) : Type 0 where
    absent : item ≡ [] → r ≡ create_empty_romance id → Represents item r
    row : IsRow item r → Represents item r

  IsBase-key : IsBase row_key (create_empty_romance id)
  unfolding get_romances_table_key get fits document_of assemble_romance create_empty_romance
      unix_to_time_ptr to_peer_vote_id
  IsBase-key = record {
    fitting = refl;
    pk_id = refl;
    sk_id = refl;
    meaning = elim (Bool-cases is_pk) [ inl e ↦ rw e | inr e ↦ rw e ];
  }

  or_key-row :
      (item : Item) {a : AttributeValue} → get "v" item ≡ some a → or_key row_key item ≡ item
  unfolding get
  or_key-row [] h = cc
  or_key-row (a ∷ item) h = refl

  pub not-IsRow-nil : {r : Romance} → ¬ IsRow [] r
  unfolding get
  not-IsRow-nil h = cc (h.versioned)

  -- The item that an update starts from.
  pub IsBase-or_key :
      {item : Item} {r : Romance} → Represents item r → IsBase (or_key row_key item) r
  IsBase-or_key {item} {r} (absent e f) = rw (e, f) IsBase-key
  IsBase-or_key {item} {r} (row h) = rw (or_key-row item h.versioned) h.base

-- What the platform does for one pair: DynamoDB and the decoder as documented, and UUIDs whose text
-- is read back as them.
pub record IsLawful {World : Type 0} (p : Platform World) (stored : World → String → Item → Item)
    (id : VoteId) : Type 0 where
  pub database : IsDocumented p.client stored
  pub unmarshal : IsUnmarshal p.unmarshal_romance
  pub clock_keeps : (w : World) → stored (p.now w).1 ≡ stored w
  pub parse_pk :
      p.uuid_parse (p.uuid_string (new_romance_primary_key id).pk)
      ≡ ok (new_romance_primary_key id).pk
  pub parse_sk :
      p.uuid_parse (p.uuid_string (new_romance_primary_key id).sk)
      ≡ ok (new_romance_primary_key id).sk

module _ {World : Type 0} (p : Platform World) (stored : World → String → Item → Item) (id : VoteId)
    (valid : IsVoteId id) (lawful : IsLawful p stored id) where
  transform-IsBase :
      {item : Item} {r : Romance}
      → IsBase p id item r
      → transform_romance_item_to_entity p.uuid_parse
          (country_id id)
          (active_user_id id)
          (document_of item)
        ≡ ok r
  unfolding document_of
  transform-IsBase {item} {r} h =
      transform_lem p.uuid_parse id (document_of item) valid (rw h.pk_id lawful.parse_pk)
        (rw h.sk_id lawful.parse_sk)
      ∙ ap ok (sym h.meaning)

  pub read_updated-IsBase :
      {item : Item} {r : Romance} (w : World)
      → IsBase p id item r
      → read_updated p id item w ≡ (ok r, w)
  unfolding read_updated
  read_updated-IsBase {item} w h =
      ground (arith, lawful.unmarshal.reads item h.fitting, transform-IsBase h)

  pub read_romance-Represents :
      (o : Option Item) {r : Romance} (w : World)
      → Represents p id (or_empty o) r
      → read_romance p id o w ≡ (ok r, w)
  unfolding read_romance
  read_romance-Represents none w (absent e f) = rw f refl
  read_romance-Represents none w (row h) = absurd (not-IsRow-nil p id h)
  read_romance-Represents (some []) w (absent e f) = rw f refl
  read_romance-Represents (some []) w (row h) = absurd (not-IsRow-nil p id h)
  read_romance-Represents (some (a ∷ item)) w (absent e f) = cc
  read_romance-Represents (some (a ∷ item)) w (row h) =
      ground (arith, lawful.unmarshal.reads (a ∷ item) h.fitting, transform-IsBase h.base)
