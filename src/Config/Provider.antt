-- ===== src/Config/Provider.antt =====
-- The provider address that `validateConfig` computes from the next hop.
use ovn_route_agent.Base.{ℕ, ◌+◌, ◌%◌, ◌^◌, ◌<◌, ◌≡◌, some, arith}
use ovn_route_agent.Net.{v4, parse_ip, ip_text}
use ovn_route_agent.Net.RoundTrip.{parse_ip-ip_text}
use ovn_route_agent.Net.Arithmetic.{next_ip_in_subnet-eq-suc}
use ovn_route_agent.Config.Defs.{Config}
use ovn_route_agent.Config.Validate.{provider_ip}

-- Where no provider address is configured and the next hop is the text of an IPv4 address, a number
-- below 2 ^ 32, the provider address is the text of the next address, which wraps around at 2 ^ 32.
pub provider_ip-next :
    (cfg : Config) (n : ℕ)
    → n < 2 ^ 32
    → cfg.veth_provider_ip ≡ ""
    → cfg.veth_nexthop ≡ ip_text (v4 n)
    → parse_ip (provider_ip cfg) ≡ some (v4 ((n + 1) % 2 ^ 32))
unfolding provider_ip
provider_ip-next cfg n h empty hop =
    rw (empty, hop, parse_ip-ip_text n h, next_ip_in_subnet-eq-suc n h)
      (parse_ip-ip_text ((n + 1) % 2 ^ 32) (omega arith))
