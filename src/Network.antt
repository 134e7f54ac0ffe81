-- ===== src/Network.antt =====
-- The load balancer before the program: its ports, who may reach them, and where requests go
-- (infra/pipeline_network.go).
pub mod Access
use recs.Prelude.{ℕ, String, Bool, true, false, List, [], ◌∷◌, map}

-- `Peer_AnyIpv4`, `Peer_Ipv4`
pub data Peer : Type 0 where
  any_ipv4 : Peer
  ipv4 : String → Peer

pub record IngressRule : Type 0 where
  pub peer : Peer
  pub port : ℕ

pub record TargetGroup : Type 0 where
  pub name : String
  pub port : ℕ
  pub health_check_path : String
  pub healthy_http_codes : String

pub record ApplicationListener : Type 0 where
  pub name : String
  pub port : ℕ
  pub is_open : Bool
  pub target_groups : List TargetGroup

-- what `NewNetwork` makes, with the rules of the load balancer's security group in the order added
pub record Network : Type 0 where
  pub max_azs : ℕ
  pub ingress : List IngressRule
  pub internet_facing : Bool
  pub prod : ApplicationListener
  pub test : ApplicationListener

abbrev pub target_group : String → TargetGroup
target_group name = record {
  name = name;
  port = 8888;
  health_check_path = "/health";
  healthy_http_codes = "200-399";
}

-- the rule for a range of addresses that may reach the test listener
abbrev pub test_rule : String → IngressRule
test_rule cidr = record { peer = ipv4 cidr; port = 9001 }

abbrev pub new_network : List String → Network
new_network test_allowed_cidrs = record {
  max_azs = 2;
  ingress = record { peer = any_ipv4; port = 80 } ∷ map test_rule test_allowed_cidrs;
  internet_facing = true;
  prod = record {
    name = "ProdListener";
    port = 80;
    is_open = false;
    target_groups = target_group "BlueTG" ∷ [];
  };
  test = record {
    name = "TestListener";
    port = 9001;
    is_open = false;
    target_groups = target_group "GreenTG" ∷ [];
  };
}
