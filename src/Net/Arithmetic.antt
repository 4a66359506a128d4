-- ===== src/Net/Arithmetic.antt =====
-- `nextIPInSubnet` of config.go and the networks that `net.ParseCIDR` returns.
use ovn_route_agent.Base.{ℕ, ◌+◌, ◌%◌, ◌^◌, ◌<◌, ◌≡◌, some, arith}
use ovn_route_agent.Net.Parse.{v4}
use ovn_route_agent.Net.Print.{next_ip_in_subnet}

-- On an IPv4 address, a number below 2 ^ 32, the loop over the bytes is an increment modulo 2 ^ 32.
pub next_ip_in_subnet-eq-suc :
    (n : ℕ) → n < 2 ^ 32 → next_ip_in_subnet (v4 n) ≡ some (v4 ((n + 1) % 2 ^ 32))
unfolding next_ip_in_subnet
next_ip_in_subnet-eq-suc n h = ground arith
