-- ===== src/Ovn/Gateway/Virtual.antt =====
-- The address that `virtualGatewayIP` of ovn_gateway.go picks.
use native.Mathlib.Nat.{
  pow-le-pow_right, mul-le-mul_left, mul-suc, lt_of_mul-lt-mul_left, div-add-mod, pow-suc,
  mul_assoc, mul_comm,
}
use ovn_route_agent.Base.{
  ℕ, zero, suc, ◌+◌, ◌-◌, ◌*◌, ◌/◌, ◌%◌, ◌^◌, ◌≤◌, ◌<◌, ◌≡◌, sym, ap, ◌∙◌, arith,
}
use ovn_route_agent.Ovn.Gateway.Routing.{last_usable}

two_pow-add : (m n : ℕ) → 2 ^ m * 2 ^ n ≡ 2 ^ (m + n)
two_pow-add m zero = let e : m + 0 ≡ m = omega arith in omega (arith, ap (λ k. 2 ^ k) e)
two_pow-add m (suc n) =
    ap (λ x. 2 ^ m * x) (pow-suc 2 n)
    ∙ sym (mul_assoc (2 ^ m) (2 ^ n) 2)
    ∙ ap (λ x. x * 2) (two_pow-add m n)
    ∙ sym (pow-suc 2 (m + n))
    ∙ ap (λ k. 2 ^ k) (omega arith)

-- `n` lies in a block of size `p`, one of the `c` blocks below `2 ^ 32`.
block_end : (p c n : ℕ) → p * c ≡ 2 ^ 32 → n < 2 ^ 32 → n / p * p + p ≤ 2 ^ 32
block_end p c n e h =
    let q = n / p in
    let below : q < c = lt_of_mul-lt-mul_left p (omega (arith, e, h, div-add-mod n p)) in
    omega (arith, mul-le-mul_left p below, e, mul_comm p q, mul-suc p q)

last_in :
    (p base : ℕ)
    → 2 ≤ p
    → base + p ≤ 2 ^ 32
    → (base + (p % 2 ^ 32 + (2 ^ 32 - 1)) % 2 ^ 32 + (2 ^ 32 - 1)) % 2 ^ 32 + 2 ≡ base + p
last_in p base small fits = omega arith

whole : (k : ℕ) → k ≡ 32 → 2 ^ k ≡ 2 ^ 32
whole k e = ap (λ x. 2 ^ x) e

-- The address is the last but one of the block of the network, also for a network of two addresses,
-- where it is the first: nothing wraps around.
pub last_usable-eq :
    (ones n : ℕ)
    → ones ≤ 31
    → n < 2 ^ 32
    → last_usable ones n + 2 ≡ n / 2 ^ (32 - ones) * 2 ^ (32 - ones) + 2 ^ (32 - ones)
last_usable-eq ones n small h =
    let full : 2 ^ (32 - ones + ones) ≡ 2 ^ 32 = whole (32 - ones + ones) (omega arith) in
    last_in (2 ^ (32 - ones)) (n / 2 ^ (32 - ones) * 2 ^ (32 - ones))
      (pow-le-pow_right {n = 2} (omega arith) {i = 1} {j = 32 - ones} (omega arith))
      (block_end (2 ^ (32 - ones)) (2 ^ ones) n (two_pow-add (32 - ones) ones ∙ full) h)
