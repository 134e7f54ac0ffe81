-- ===== src/Network/Access.antt =====
-- Who may reach the listeners.
use mathlib.Core.List.{Memᴰ}
use mathlib.Core.List.Memᴰ.{head, tail}
use recs.Prelude.{String, ◌≡◌, refl, ap, List, [], ◌∷◌, map, arith}
use recs.Network.{ipv4, IngressRule, test_rule, new_network}

test_rule_allowed :
    (cidrs : List String) (rule : IngressRule)
    → Memᴰ rule (map test_rule cidrs)
    → (cidr : String) × Memᴰ cidr cidrs × (rule.peer ≡ ipv4 cidr)
test_rule_allowed [] rule m = elim m [ ]
test_rule_allowed (cidr ∷ cidrs) rule (head e) = (cidr, head refl, ap (λ x. x.peer) e)
test_rule_allowed (cidr ∷ cidrs) rule (tail m) =
    let (found, among, same) = test_rule_allowed cidrs rule m in (found, tail among, same)

-- A rule that lets requests through to the test listener is for a range of addresses that is
-- allowed; the rule for everyone is for the other port.
pub test_listener_restricted :
    (cidrs : List String) (rule : IngressRule)
    → Memᴰ rule (new_network cidrs).ingress
    → rule.port ≡ (new_network cidrs).test.port
    → (cidr : String) × Memᴰ cidr cidrs × (rule.peer ≡ ipv4 cidr)
test_listener_restricted cidrs rule (head e) p = absurd (omega (arith, p, ap (λ x. x.port) e))
test_listener_restricted cidrs rule (tail m) p = test_rule_allowed cidrs rule m
