-- ===== src/AwsClients.antt =====
-- How the clients of the two services are configured (`NewDynamoDbClient` in
-- internal/shared/platform/dynamodb/client.go, `GetSnsAwsConfig` in
-- internal/shared/platform/amazon_sns/config.go). `LoadDefaultConfig` is a parameter.
use text.Mathlib.Text.{◌==◌ as str_eq}
use recs.Prelude.{
  String, ◌≡◌, refl, Bool, false, not, ◌&&◌, Option, none, some, List, [], ◌∷◌, ◌++◌, if◌then◌else◌,
}
use recs.Errors.{Result, ok, err}
use recs.Config.{Config, AwsConfig}

-- a function that sets an option
pub data LoadOption : Type 0 where
  with_region : String → LoadOption
  with_static_credentials : String → String → LoadOption
  with_base_endpoint : String → LoadOption

abbrev pub is_set : String → Bool
is_set text = not (str_eq text "")

-- the options, where a service has an endpoint of its own
unfoldable pub options : AwsConfig → String → List LoadOption
options aws endpoint =
    let region = with_region aws.region ∷ [] in
    let credentials =
      if is_set aws.access_key_id && is_set aws.secret_access_key
      then with_static_credentials aws.access_key_id aws.secret_access_key ∷ []
      else [] in
    let base = if is_set endpoint then with_base_endpoint endpoint ∷ [] else [] in
    region ++ (credentials ++ base)

module _ {Loaded : Type 0} (load_default_config : List LoadOption → Result Loaded) where
  -- `none` is the exit of the process
  abbrev loaded : Result Loaded → Option Loaded
  loaded (ok aws_cfg) = some aws_cfg
  loaded (err e) = none

  unfoldable pub new_dynamo_db_config : Config → Option Loaded
  unfolding options
  new_dynamo_db_config config =
      loaded (load_default_config (options config.aws config.aws.dynamo_db_endpoint))

  unfoldable pub get_sns_aws_config : Config → Option Loaded
  unfolding options
  get_sns_aws_config config =
      loaded (load_default_config (options config.aws config.aws.sns_endpoint))

-- A key without its secret, or a secret without its key, is not used.
pub half_set_ignored :
    (aws : AwsConfig) (endpoint : String)
    → (is_set aws.access_key_id && is_set aws.secret_access_key) ≡ false
    → options aws endpoint
      ≡ options (record aws { access_key_id = ""; secret_access_key = "" }) endpoint
unfolding options
half_set_ignored aws endpoint h = rw h refl
