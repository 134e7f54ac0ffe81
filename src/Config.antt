-- ===== src/Config.antt =====
-- The settings of the program (config/config.go).
pub mod Loading
use recs.Prelude.{ℕ, ◌*◌, String, Option, none, some}
use recs.Errors.{Result, ok, err}
use recs.Prelude.Int.{ℤ, pos}
use recs.Time.{hour_seconds, day_seconds}

abbrev pub counters_ttl_hours : ℕ
counters_ttl_hours = 48

abbrev pub dynamo_db_version_conflict_retries_count : ℕ
dynamo_db_version_conflict_retries_count = 3

pub record RomancesConfig : Type 0 where
  pub mutual_romance_ttl_seconds : ℤ
  pub non_mutual_romance_ttl_seconds : ℤ
  pub dead_romance_ttl_seconds : ℤ

pub record CountersConfig : Type 0 where
  pub ttl_seconds : ℤ

pub record PipelineConfig : Type 0 where
  pub connection_arn : String
  pub owner : String
  pub repo : String
  pub branch : String

pub record AwsConfig : Type 0 where
  pub region : String
  pub account_id : String
  pub access_key_id : String
  pub secret_access_key : String
  pub dynamo_db_endpoint : String
  pub sns_endpoint : String

pub record Config : Type 0 where
  pub log_level : String
  pub aws : AwsConfig
  pub counters : CountersConfig
  pub romances : RomancesConfig
  pub pipeline : PipelineConfig

-- what `Load` sets before it parses the environment, of which `getenv` gives a variable
abbrev pub settings : (String → String) → Config
settings getenv = record {
  log_level = "";
  aws = record {
    region = getenv "AWS_REGION";
    account_id = getenv "AWS_ACCOUNT_ID";
    access_key_id = getenv "AWS_ACCESS_KEY_ID";
    secret_access_key = getenv "AWS_SECRET_ACCESS_KEY";
    dynamo_db_endpoint = "";
    sns_endpoint = "";
  };
  counters = record { ttl_seconds = pos (counters_ttl_hours * hour_seconds) };
  romances = record {
    mutual_romance_ttl_seconds = pos (546 * day_seconds);
    non_mutual_romance_ttl_seconds = pos (180 * day_seconds);
    dead_romance_ttl_seconds = pos (90 * day_seconds);
  };
  pipeline = record { connection_arn = ""; owner = ""; repo = ""; branch = "" };
}

-- `Load`, over `env.Parse`; `none` is the panic
unfoldable pub load : (String → String) → (Config → Result Config) → Option Config
load getenv parse = elim (parse (settings getenv)) [ ok config ↦ some config | err e ↦ none ]
