-- ===== src/Config/Loading.antt =====
-- What does not depend on the environment.
use recs.Prelude.{String, ◌≡◌, refl, ap, sym, ◌∙◌, some, arith}
use recs.Errors.{Result, ok, err}
use recs.Config.{Config, settings, load}

-- What `env.Parse` does to the fields without a variable: nothing.
pub record IsParse (parse : Config → Result Config) : Type 0 where
  pub counters_kept :
      (before config : Config) → parse before ≡ ok config → config.counters ≡ before.counters
  pub romances_kept :
      (before config : Config) → parse before ≡ ok config → config.romances ≡ before.romances

-- The lifetimes of rows do not depend on the environment.
pub load_lifetimes :
    (getenv : String → String) (parse : Config → Result Config) (config : Config)
    → IsParse parse
    → load getenv parse ≡ some config
    → (config.counters ≡ (settings getenv).counters)
      × (config.romances ≡ (settings getenv).romances)
load_lifetimes getenv parse config is_parse h = parsed _ refl
  where
    parsed :
        (r : Result Config)
        → parse (settings getenv) ≡ r
        → (config.counters ≡ (settings getenv).counters)
          × (config.romances ≡ (settings getenv).romances)
    parsed (ok c) e =
        let same : c ≡ config = unfold load in ground arith in
        (
          ap (λ x. x.counters) (sym same) ∙ is_parse.counters_kept _ c e,
          ap (λ x. x.romances) (sym same) ∙ is_parse.romances_kept _ c e,
        )
    parsed (err x) e = absurd (unfold load in ground arith)
