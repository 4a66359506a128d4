-- ===== src/Ovn/State/Collected.antt =====
-- What the loops over the NAT rows and the patch ports collect, address by address.
use ovn_route_agent.Base.{
  String, Bool, true, false, not, keys, elem-keys-insert, ◌&&◌, ◌||◌, ◌≡◌, refl, ◌∙◌, Option, none,
  some, List, [], ◌∷◌, ◌==◌, arith, eq_iff, any, elem, elem-append, lookup, is_some, or_empty,
  Bool-cases, inl, inr,
}
use ovn_route_agent.Net.{IpNet}
use ovn_route_agent.Ovn.Rows.{SbPortBinding, NbNat}
use ovn_route_agent.Ovn.State.Nats.{
  NatAcc, in_filters, append_if, join_nat, collect_nats, parse_nat_address_ips, is_gateway_patch,
  peer_of, add_ip, add_ips, add_addresses, join_patch, collect_patches,
}

elem-append_if :
    (ip : String) (b : Bool) (xs : List String) (x : String)
    → elem ip (append_if b xs x) ≡ ((b && x == ip) || elem ip xs)
unfolding elem
elem-append_if ip true xs x = elem-append ip xs (x ∷ []) ∙ ground arith
elem-append_if ip false xs x = refl

-- A NAT row of one type, with this address, that one of the given owners has.
abbrev pub gives : (ip type : String) → (String → Bool) → NbNat → Bool
gives ip type owned nat = nat.external_ip == ip && nat.type == type && owned nat.uuid

-- A patch port of a gateway that is active here, with this address.
abbrev pub offers : (ip : String) → List (String × String) → SbPortBinding → Bool
offers ip names pb =
    is_gateway_patch names pb && any (λ t. elem ip (parse_nat_address_ips t)) pb.nat_addresses

-- A NAT row of any type, with this address, that one of the given owners has.
abbrev pub gives_any : (ip : String) → (String → Bool) → NbNat → Bool
gives_any ip owned nat = nat.external_ip == ip && owned nat.uuid

-- Such a patch port whose router port has a MAC.
abbrev pub offers_with_mac :
    (ip : String) → (names macs : List (String × String)) → SbPortBinding → Bool
offers_with_mac ip names macs pb =
    offers ip names pb && not (or_empty (lookup (peer_of pb) macs) == "")

abbrev pub known : List (String × String) → String → Bool
known nat_macs uuid = is_some (lookup uuid nat_macs)

module _ (ip : String) (filters : List IpNet) where
  join_nat-fips :
      (nat : NbNat) (o : Option String) (acc : NatAcc)
      → elem ip (join_nat filters nat o acc).fips ≡ (
          (in_filters filters ip
            && nat.external_ip == ip
            && nat.type == "dnat_and_snat"
            && is_some o)
          || elem ip acc.fips)
  join_nat-fips nat none acc = ground arith
  join_nat-fips nat (some mac) acc = elim (Bool-cases (in_filters filters nat.external_ip)) [
    | inl e ↦ rw e (
        elem-append_if ip (nat.type == "dnat_and_snat") acc.fips nat.external_ip
        ∙ ground (arith, eq_iff nat.external_ip ip))
    | inr e ↦ rw e (ground (arith, eq_iff nat.external_ip ip))
  ]

  join_nat-snat_ips :
      (nat : NbNat) (o : Option String) (acc : NatAcc)
      → elem ip (join_nat filters nat o acc).snat_ips ≡ (
          (in_filters filters ip && nat.external_ip == ip && nat.type == "snat" && is_some o)
          || elem ip acc.snat_ips)
  join_nat-snat_ips nat none acc = ground arith
  join_nat-snat_ips nat (some mac) acc = elim (Bool-cases (in_filters filters nat.external_ip)) [
    | inl e ↦ rw e (
        elem-append_if ip (nat.type == "snat") acc.snat_ips nat.external_ip
        ∙ ground (arith, eq_iff nat.external_ip ip))
    | inr e ↦ rw e (ground (arith, eq_iff nat.external_ip ip))
  ]

  pub collect_nats-fips :
      (nat_macs : List (String × String)) (nats : List NbNat) (acc : NatAcc)
      → elem ip (collect_nats filters nat_macs nats acc).fips ≡ (
          (in_filters filters ip && any (gives ip "dnat_and_snat" (known nat_macs)) nats)
          || elem ip acc.fips)
  unfolding collect_nats any
  collect_nats-fips nat_macs [] acc = ground arith
  collect_nats-fips nat_macs (nat ∷ nats) acc =
      let o = lookup nat.uuid nat_macs in
      collect_nats-fips nat_macs nats (join_nat filters nat o acc)
      ∙ rw (join_nat-fips nat o acc) (ground arith)

  pub collect_nats-snat_ips :
      (nat_macs : List (String × String)) (nats : List NbNat) (acc : NatAcc)
      → elem ip (collect_nats filters nat_macs nats acc).snat_ips ≡ (
          (in_filters filters ip && any (gives ip "snat" (known nat_macs)) nats)
          || elem ip acc.snat_ips)
  unfolding collect_nats any
  collect_nats-snat_ips nat_macs [] acc = ground arith
  collect_nats-snat_ips nat_macs (nat ∷ nats) acc =
      let o = lookup nat.uuid nat_macs in
      collect_nats-snat_ips nat_macs nats (join_nat filters nat o acc)
      ∙ rw (join_nat-snat_ips nat o acc) (ground arith)

  add_ip-snat_ips :
      (mac x : String) (acc : NatAcc)
      → elem ip (add_ip filters mac x acc).snat_ips
        ≡ ((in_filters filters ip && x == ip) || elem ip acc.snat_ips)
  unfolding elem
  add_ip-snat_ips mac x acc = elim (Bool-cases (in_filters filters x)) [
    | inl e ↦ rw e (elem-append ip acc.snat_ips (x ∷ []) ∙ ground (arith, eq_iff x ip))
    | inr e ↦ rw e (ground (arith, eq_iff x ip))
  ]

  add_ips-snat_ips :
      (mac : String) (ips : List String) (acc : NatAcc)
      → elem ip (add_ips filters mac ips acc).snat_ips
        ≡ ((in_filters filters ip && elem ip ips) || elem ip acc.snat_ips)
  unfolding add_ips elem
  add_ips-snat_ips mac [] acc = ground arith
  add_ips-snat_ips mac (x ∷ xs) acc =
      add_ips-snat_ips mac xs (add_ip filters mac x acc)
      ∙ rw (add_ip-snat_ips mac x acc) (ground arith)

  add_addresses-snat_ips :
      (mac : String) (texts : List String) (acc : NatAcc)
      → elem ip (add_addresses filters mac texts acc).snat_ips ≡ (
          (in_filters filters ip && any (λ t. elem ip (parse_nat_address_ips t)) texts)
          || elem ip acc.snat_ips)
  unfolding add_addresses any
  add_addresses-snat_ips mac [] acc = ground arith
  add_addresses-snat_ips mac (t ∷ ts) acc =
      let acc' = add_ips filters mac (parse_nat_address_ips t) acc in
      add_addresses-snat_ips mac ts acc'
      ∙ rw (add_ips-snat_ips mac (parse_nat_address_ips t) acc) (ground arith)

  join_patch-snat_ips :
      (mac : String) (texts : List String) (b : Bool) (acc : NatAcc)
      → elem ip (join_patch filters mac texts b acc).snat_ips ≡ (
          (in_filters filters ip && b && any (λ t. elem ip (parse_nat_address_ips t)) texts)
          || elem ip acc.snat_ips)
  join_patch-snat_ips mac texts true acc = add_addresses-snat_ips mac texts acc ∙ ground arith
  join_patch-snat_ips mac texts false acc = ground arith

  pub collect_patches-snat_ips :
      (names macs : List (String × String)) (pbs : List SbPortBinding) (acc : NatAcc)
      → elem ip (collect_patches filters names macs pbs acc).snat_ips
        ≡ ((in_filters filters ip && any (offers ip names) pbs) || elem ip acc.snat_ips)
  unfolding collect_patches any
  collect_patches-snat_ips names macs [] acc = ground arith
  collect_patches-snat_ips names macs (pb ∷ pbs) acc =
      let mac = or_empty (lookup (peer_of pb) macs) in
      let acc' = join_patch filters mac pb.nat_addresses (is_gateway_patch names pb) acc in
      collect_patches-snat_ips names macs pbs acc'
      ∙ rw (join_patch-snat_ips mac pb.nat_addresses (is_gateway_patch names pb) acc) (ground arith)

  join_nat-keys :
      (nat : NbNat) (o : Option String) (acc : NatAcc)
      → elem ip (keys (join_nat filters nat o acc).macs)
        ≡ ((in_filters filters ip && nat.external_ip == ip && is_some o) || elem ip (keys acc.macs))
  join_nat-keys nat none acc = ground arith
  join_nat-keys nat (some mac) acc = elim (Bool-cases (in_filters filters nat.external_ip)) [
    | inl e ↦ rw e (
        elem-keys-insert ip nat.external_ip mac acc.macs
        ∙ ground (arith, eq_iff nat.external_ip ip))
    | inr e ↦ rw e (ground (arith, eq_iff nat.external_ip ip))
  ]

  pub collect_nats-keys :
      (nat_macs : List (String × String)) (nats : List NbNat) (acc : NatAcc)
      → elem ip (keys (collect_nats filters nat_macs nats acc).macs) ≡ (
          (in_filters filters ip && any (gives_any ip (known nat_macs)) nats)
          || elem ip (keys acc.macs))
  unfolding collect_nats any
  collect_nats-keys nat_macs [] acc = ground arith
  collect_nats-keys nat_macs (nat ∷ nats) acc =
      let o = lookup nat.uuid nat_macs in
      collect_nats-keys nat_macs nats (join_nat filters nat o acc)
      ∙ rw (join_nat-keys nat o acc) (ground arith)

  add_ip-keys :
      (mac x : String) (acc : NatAcc)
      → elem ip (keys (add_ip filters mac x acc).macs)
        ≡ ((in_filters filters ip && x == ip && not (mac == "")) || elem ip (keys acc.macs))
  add_ip-keys mac x acc = elim (Bool-cases (in_filters filters x)) [
    | inl e ↦ elim (Bool-cases (mac == "")) [
      | inl m ↦ rw (e, m) (ground arith)
      | inr m ↦ rw (e, m) (elem-keys-insert ip x mac acc.macs ∙ ground (arith, eq_iff x ip))
    ]
    | inr e ↦ rw e (ground (arith, eq_iff x ip))
  ]

  add_ips-keys :
      (mac : String) (ips : List String) (acc : NatAcc)
      → elem ip (keys (add_ips filters mac ips acc).macs)
        ≡ ((in_filters filters ip && elem ip ips && not (mac == "")) || elem ip (keys acc.macs))
  unfolding add_ips elem
  add_ips-keys mac [] acc = ground arith
  add_ips-keys mac (x ∷ xs) acc =
      add_ips-keys mac xs (add_ip filters mac x acc) ∙ rw (add_ip-keys mac x acc) (ground arith)

  add_addresses-keys :
      (mac : String) (texts : List String) (acc : NatAcc)
      → elem ip (keys (add_addresses filters mac texts acc).macs) ≡ (
          (in_filters filters ip
            && any (λ t. elem ip (parse_nat_address_ips t)) texts
            && not (mac == ""))
          || elem ip (keys acc.macs))
  unfolding add_addresses any
  add_addresses-keys mac [] acc = ground arith
  add_addresses-keys mac (t ∷ ts) acc =
      let acc' = add_ips filters mac (parse_nat_address_ips t) acc in
      add_addresses-keys mac ts acc'
      ∙ rw (add_ips-keys mac (parse_nat_address_ips t) acc) (ground arith)

  join_patch-keys :
      (mac : String) (texts : List String) (b : Bool) (acc : NatAcc)
      → elem ip (keys (join_patch filters mac texts b acc).macs) ≡ (
          (in_filters filters ip
            && (b && any (λ t. elem ip (parse_nat_address_ips t)) texts)
            && not (mac == ""))
          || elem ip (keys acc.macs))
  join_patch-keys mac texts true acc = add_addresses-keys mac texts acc ∙ ground arith
  join_patch-keys mac texts false acc = ground arith

  pub collect_patches-keys :
      (names macs : List (String × String)) (pbs : List SbPortBinding) (acc : NatAcc)
      → elem ip (keys (collect_patches filters names macs pbs acc).macs) ≡ (
          (in_filters filters ip && any (offers_with_mac ip names macs) pbs)
          || elem ip (keys acc.macs))
  unfolding collect_patches any
  collect_patches-keys names macs [] acc = ground arith
  collect_patches-keys names macs (pb ∷ pbs) acc =
      let mac = or_empty (lookup (peer_of pb) macs) in
      let acc' = join_patch filters mac pb.nat_addresses (is_gateway_patch names pb) acc in
      collect_patches-keys names macs pbs acc'
      ∙ rw (join_patch-keys mac pb.nat_addresses (is_gateway_patch names pb) acc) (ground arith)

  add_addresses-fips :
      (mac : String) (texts : List String) (acc : NatAcc)
      → (add_addresses filters mac texts acc).fips ≡ acc.fips
  unfolding add_addresses add_ips
  add_addresses-fips mac [] acc = refl
  add_addresses-fips mac (t ∷ ts) acc =
      add_addresses-fips mac ts (add_ips filters mac (parse_nat_address_ips t) acc)
      ∙ add_ips-fips mac (parse_nat_address_ips t) acc
    where
      add_ip-fips : (m x : String) (a : NatAcc) → (add_ip filters m x a).fips ≡ a.fips
      add_ip-fips m x a = elim (Bool-cases (in_filters filters x)) [
        | inl e ↦ rw e refl
        | inr e ↦ rw e refl
      ]

      add_ips-fips :
          (m : String) (xs : List String) (a : NatAcc) → (add_ips filters m xs a).fips ≡ a.fips
      add_ips-fips m [] a = refl
      add_ips-fips m (x ∷ xs) a = add_ips-fips m xs (add_ip filters m x a) ∙ add_ip-fips m x a

  join_patch-fips :
      (mac : String) (texts : List String) (b : Bool) (acc : NatAcc)
      → (join_patch filters mac texts b acc).fips ≡ acc.fips
  join_patch-fips mac texts true acc = add_addresses-fips mac texts acc
  join_patch-fips mac texts false acc = refl

  pub collect_patches-fips :
      (names macs : List (String × String)) (pbs : List SbPortBinding) (acc : NatAcc)
      → (collect_patches filters names macs pbs acc).fips ≡ acc.fips
  unfolding collect_patches
  collect_patches-fips names macs [] acc = refl
  collect_patches-fips names macs (pb ∷ pbs) acc =
      let mac = or_empty (lookup (peer_of pb) macs) in
      let acc' = join_patch filters mac pb.nat_addresses (is_gateway_patch names pb) acc in
      collect_patches-fips names macs pbs acc'
      ∙ join_patch-fips mac pb.nat_addresses (is_gateway_patch names pb) acc
