-- ===== src/Sns/Deduplication.antt =====
-- Which messages have one deduplication id.
use Prim.Native.String.{count}
use text.Mathlib.TextLemmas.{append_inj, append_cancel_left}
use recs.Prelude.{String, ◌<◌, ◌^◌, ◌≡◌, ap, ap₂, ◌↔◌, arith}
use recs.Uuid.{Uuid}
use recs.Strings.{decimal}
use recs.Strings.Decimals.{decimal_inj}
use recs.Messages.{Message, DeleteRomancesMessage}
use recs.Sns.{Sns, get_deduplication_id}

-- The text forms of two UUIDs have one length, and tell them apart.
pub record IsUuidText (uuid_string : Uuid → String) (u v : Uuid) : Type 0 where
  pub same_length : count (uuid_string u) ≡ count (uuid_string v)
  pub injective : uuid_string u ≡ uuid_string v → u ≡ v

-- Two requests to delete the romances of a user have the same deduplication id, by which SNS drops the
-- second one, exactly when they are for the same user in the same country. The texts of the two
-- UUIDs have one length and tell them apart, and countries are uint16s.
pub get_deduplication_id_iff :
    {World Payload : Type 0} (sns : Sns World Payload) (m n : DeleteRomancesMessage)
    → IsUuidText sns.uuid_string m.active_user_id n.active_user_id
    → m.country_id < 2 ^ 16
    → n.country_id < 2 ^ 16
    → (get_deduplication_id sns (Message.delete_romances m)
        ≡ get_deduplication_id sns (Message.delete_romances n))
      ↔ (m ≡ n)
unfolding get_deduplication_id
get_deduplication_id_iff sns m n is_text b c = (
  λ e.
      let (user, rest) = append_inj e is_text.same_length in
      let same_user : m.active_user_id ≡ n.active_user_id = is_text.injective user in
      let same_country : m.country_id ≡ n.country_id =
        decimal_inj 5 m.country_id n.country_id (omega (arith, b)) (omega (arith, c))
          (append_cancel_left "_" (decimal 5 m.country_id) (decimal 5 n.country_id) rest) in
      ap₂ (λ u k. record { active_user_id = u; country_id = k }) same_user same_country,
  λ e. ap (λ x. get_deduplication_id sns (Message.delete_romances x)) e,
)
