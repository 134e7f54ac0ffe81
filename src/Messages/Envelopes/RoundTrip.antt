-- ===== src/Messages/Envelopes/RoundTrip.antt =====
-- Messages survive their payloads, and no payload is taken for a message of the other type.
use text.Mathlib.Text.{◌==◌ as str_eq}
use text.Mathlib.TextPositions.{eq_refl}
use recs.Prelude.{String, ◌≡◌, refl, false, Option, some, arith}
use recs.Errors.{ok, err, wrong_message_name}
use recs.Messages.{DeleteRomancesMessage, DeleteRomancesGroupMessage, Message}
use recs.Messages.Envelopes.{
  Envelope, Json, Codec, finished, get_payload, load, payload_of, del_romances_message_name,
  del_romances_group_message_name,
}

-- `encoding/json` on envelopes: every envelope has a text and is read back from it.
pub record IsJson {Payload M : Type 0} (json : Json Payload M) : Type 0 where
  pub written : (env : Envelope M) → (p : Payload) × (json.marshal env ≡ ok p)
  pub read_back :
      (env : Envelope M) (p : Payload) → json.marshal env ≡ ok p → json.unmarshal p ≡ ok env

-- An envelope of one type can be read as one of another: its name is kept, and what is in its
-- message is read as far as the fields agree.
abbrev pub ReadsName : {Payload M N : Type 0} → Json Payload M → Json Payload N → Type 0
ReadsName {Payload} {M} {N} json other =
    (env : Envelope M) (p : Payload)
    → json.marshal env ≡ ok p
    → (m : Option N) × (other.unmarshal p ≡ ok (record { name = env.name; message = m }))

pub record IsCodec {Payload : Type 0} (codec : Codec Payload) : Type 0 where
  pub romances : IsJson codec.romances
  pub romances_group : IsJson codec.romances_group
  pub romances_name : ReadsName codec.romances codec.romances_group
  pub romances_group_name : ReadsName codec.romances_group codec.romances

module _ {Payload M : Type 0} (json : Json Payload M) (is_json : IsJson json) (nil : Payload) where
  get_payload-marshal :
      (name : String) (m : M)
      → json.marshal (record { name = name; message = some m }) ≡ ok (get_payload json nil name m)
  unfolding get_payload
  get_payload-marshal name m =
      ground (arith, (is_json.written (record { name = name; message = some m })).1)

  pub load-get_payload :
      (name : String) (m : M) → load json name (get_payload json nil name m) ≡ finished (ok m)
  unfolding load
  load-get_payload name m = ground (
    arith,
    eq_refl name,
    is_json.read_back (record { name = name; message = some m }) (get_payload json nil name m)
        (get_payload-marshal name m),
  )

  pub load-other :
      {N : Type 0} (other : Json Payload N)
      → ReadsName json other
      → (name expected : String) (m : M) → str_eq name expected ≡ false
      → load other expected (get_payload json nil name m)
        ≡ finished (err (wrong_message_name name expected))
  unfolding load
  load-other other reads name expected m h = ground (
    arith,
    (reads (record { name = name; message = some m }) (get_payload json nil name m)
        (get_payload-marshal name m)).1,
  )

-- The message that is published under either name is what its handler loads, and is refused by the
-- handler of the other.
pub load-payload_of :
    {Payload : Type 0} (codec : Codec Payload)
    → IsCodec codec
    → (m : DeleteRomancesMessage) (g : DeleteRomancesGroupMessage)
    → (load codec.romances del_romances_message_name (payload_of codec (Message.delete_romances m))
        ≡ finished (ok m))
      × (load codec.romances_group del_romances_group_message_name
            (payload_of codec (Message.delete_romances_group g))
          ≡ finished (ok g))
      × (load codec.romances_group del_romances_group_message_name
            (payload_of codec (Message.delete_romances m))
          ≡ finished (err (wrong_message_name "del_romances" "del_romances_group")))
      × (load codec.romances del_romances_message_name
            (payload_of codec (Message.delete_romances_group g))
          ≡ finished (err (wrong_message_name "del_romances_group" "del_romances")))
unfolding payload_of
load-payload_of codec h m g = (
  load-get_payload codec.romances h.romances codec.nil del_romances_message_name m,
  load-get_payload codec.romances_group h.romances_group codec.nil del_romances_group_message_name
      g,
  load-other codec.romances h.romances codec.nil codec.romances_group h.romances_name _ _ m refl,
  load-other codec.romances_group h.romances_group codec.nil codec.romances h.romances_group_name _
      _ g refl,
)
