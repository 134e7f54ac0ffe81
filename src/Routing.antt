-- ===== src/Routing.antt =====
-- The operations that are registered with the web framework, and their paths
-- (internal/context/voting/interface/api/rest/v1/register.go, internal/app/api/handler_factory.go).
-- A path is kept as its segments. Summaries and descriptions are left out.
pub mod Matching
use text.Mathlib.Text.{◌==◌ as str_eq}
use recs.Prelude.{String, Bool, true, false, ◌&&◌, List, [], ◌∷◌, ◌++◌, map}

-- `/name`, and `/{name}`
pub data Segment : Type 0 where
  literal parameter : String → Segment

pub data Method : Type 0 where
  get_method post_method patch_method delete_method : Method

-- An operation without an id has the empty one.
pub record ApiOperation : Type 0 where
  pub operation_id : String
  pub method : Method
  pub path : List Segment
  pub tags : List String

-- `huma.NewGroup` with a prefix: the prefix stands before the paths of the operations registered
abbrev pub new_group : String → List ApiOperation → List ApiOperation
new_group prefix = map {A = ApiOperation} (λ op. record op { path = literal prefix ∷ op.path })

-- `UseSimpleModifier` with a function that sets the tags
abbrev pub tagged : String → List ApiOperation → List ApiOperation
tagged tag = map {A = ApiOperation} (λ op. record op { tags = tag ∷ [] })

abbrev pub pair_path : List Segment
pair_path = parameter "country_id" ∷ parameter "active_user_id" ∷ parameter "peer_id" ∷ []

abbrev pub user_path : List Segment
user_path = parameter "country_id" ∷ parameter "active_user_id" ∷ []

abbrev operation : String → Method → List Segment → ApiOperation
operation operation_id method path = record {
  operation_id = operation_id;
  method = method;
  path = path;
  tags = [];
}

unfoldable pub register_romances_routes : List ApiOperation
register_romances_routes = new_group "romances" (
    tagged "Romances" (
      operation "get-romance" get_method pair_path
      ∷ operation "delete-romance" delete_method pair_path
      ∷ operation "delete-romances" delete_method user_path
      ∷ []))

unfoldable pub register_votes_routes : List ApiOperation
register_votes_routes = new_group "votes" (
    tagged "Votes" (
      operation "get-vote" get_method pair_path
      ∷ operation "add-vote" post_method (parameter "country_id" ∷ [])
      ∷ operation "change-vote" patch_method (pair_path ++ literal "change-contract" ∷ [])
      ∷ operation "delete-vote" delete_method pair_path
      ∷ []))

unfoldable pub register_counters_routes : List ApiOperation
register_counters_routes = new_group "counters" (
    tagged "Counters" (
      operation "get-lifetime-counters" get_method (user_path ++ literal "lifetime" ∷ [])
      ∷ operation "get-hourly-counters" get_method (user_path ++ literal "hourly" ∷ [])
      ∷ []))

-- `RegisterV1Routes`
unfoldable pub register_v1_routes : List ApiOperation
unfolding register_romances_routes register_votes_routes register_counters_routes
register_v1_routes = register_romances_routes ++ register_votes_routes ++ register_counters_routes

abbrev pub health_check : ApiOperation
health_check = record {
  operation_id = "";
  method = get_method;
  path = literal "health" ∷ [];
  tags = "System" ∷ [];
}

-- what `NewHumaApiServerHandler` registers
unfoldable pub api_operations : List ApiOperation
unfolding register_v1_routes
api_operations = health_check ∷ new_group "v1" register_v1_routes

-- `http.ServeMux`: a literal matches itself, and a wildcard any segment
unfoldable pub matches_path : List Segment → List String → Bool
matches_path [] [] = true
matches_path [] (part ∷ parts) = false
matches_path (segment ∷ segments) [] = false
matches_path (literal text ∷ segments) (part ∷ parts) =
    str_eq text part && matches_path segments parts
matches_path (parameter name ∷ segments) (part ∷ parts) = matches_path segments parts

abbrev pub same_method : Method → Method → Bool
same_method get_method get_method = true
same_method post_method post_method = true
same_method patch_method patch_method = true
same_method delete_method delete_method = true
same_method _ _ = false

unfoldable pub matches : ApiOperation → Method → List String → Bool
unfolding matches_path
matches op method parts = same_method op.method method && matches_path op.path parts
