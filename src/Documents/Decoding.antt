-- ===== src/Documents/Decoding.antt =====
-- What `attributevalue.UnmarshalMap` documents at `RomanceDocumentSchema`: a missing attribute leaves
-- the zero value, and a value of another type or out of the field's range is an error.
use recs.Prelude.{ℕ, ◌^◌, String, ◌≡◌, Bool, true, false, ◌&&◌, Option, none, some, ltb}
use recs.Prelude.Int.{ℤ, pos, negsuc}
use recs.Errors.{Error, Result, ok, err}
use recs.Dynamo.Attributes.{AttributeValue, Item, get}
use recs.Documents.{RomanceDocumentSchema}

abbrev pub text : Option AttributeValue → String
text (some (AttributeValue.s t)) = t
text _ = ""

abbrev pub fits_text : Option AttributeValue → Bool
fits_text none = true
fits_text (some (AttributeValue.s t)) = true
fits_text (some (AttributeValue.n k)) = false

abbrev pub unsigned : Option AttributeValue → ℕ
unsigned (some (AttributeValue.n (pos k))) = k
unsigned _ = 0

abbrev pub fits_unsigned : ℕ → Option AttributeValue → Bool
fits_unsigned m none = true
fits_unsigned m (some (AttributeValue.n (pos k))) = ltb k m
fits_unsigned m (some (AttributeValue.n (negsuc k))) = false
fits_unsigned m (some (AttributeValue.s t)) = false

-- an `*int32`
abbrev pub pointer : Option AttributeValue → Option ℤ
pointer (some (AttributeValue.n k)) = some k
pointer _ = none

abbrev pub is_int32 : ℤ → Bool
is_int32 (pos k) = ltb k (2 ^ 31)
is_int32 (negsuc k) = ltb k (2 ^ 31)

abbrev pub fits_pointer : Option AttributeValue → Bool
fits_pointer none = true
fits_pointer (some (AttributeValue.n k)) = is_int32 k
fits_pointer (some (AttributeValue.s t)) = false

unfoldable pub document_of : Item → RomanceDocumentSchema
document_of item = record {
  pk_user_id = text (get "a" item);
  sk_user_id = text (get "b" item);
  pk_user_vote_type = unsigned (get "e" item);
  pk_user_voted_at = pointer (get "g" item);
  pk_user_vote_created_at = pointer (get "h" item);
  pk_user_vote_updated_at = pointer (get "i" item);
  sk_user_vote_type = unsigned (get "l" item);
  sk_user_voted_at = pointer (get "n" item);
  sk_user_vote_created_at = pointer (get "o" item);
  sk_user_vote_updated_at = pointer (get "p" item);
  version = unsigned (get "v" item);
}

-- the attributes that belong to one user of the row
abbrev pub fits_pk : Item → Bool
fits_pk item =
    fits_unsigned 256 (get "e" item)
    && (fits_pointer (get "g" item) && (fits_pointer (get "h" item) && fits_pointer (get "i" item)))

abbrev pub fits_sk : Item → Bool
fits_sk item =
    fits_unsigned 256 (get "l" item)
    && (fits_pointer (get "n" item) && (fits_pointer (get "o" item) && fits_pointer (get "p" item)))

unfoldable pub fits : Item → Bool
fits item =
    (fits_text (get "a" item) && fits_text (get "b" item))
    && (fits_unsigned (2 ^ 32) (get "v" item) && (fits_pk item && fits_sk item))

-- the hypothesis on the function that the platform gives
pub record IsUnmarshal (unmarshal : Item → Result RomanceDocumentSchema) : Type 0 where
  pub reads : (item : Item) → fits item ≡ true → unmarshal item ≡ ok (document_of item)
  pub rejects : (item : Item) → fits item ≡ false → (e : Error) × (unmarshal item ≡ err e)
