-- ===== src/Net/RoundTrip.antt =====
-- The texts of IPv4 addresses: printed by `IP.String`, read back by `net.ParseIP`.
use Prim.Native.Char.{code}
use Prim.Native.String.{◌++◌ as ◌+++◌}
use text.Mathlib.TextLemmas.{cons-append, nil-append}
use ovn_route_agent.Base.{
  ℕ, zero, suc, ◌/◌, ◌%◌, ◌^◌, ◌<◌, String, ◌≡◌, refl, Bool, true, false, ◌&&◌, none, some, [], ◌∷◌,
  arith, leb, eqb, split_by, ap, ◌∙◌,
}
use ovn_route_agent.Net.Parse.{v4, dotted, kind_of, parse_octet, parse_v4, parse_ip, from_octets}
use ovn_route_agent.Net.Print.{itoa, print_v4, ip_text}

digits_only : String → Bool
digits_only String.[] = true
digits_only (String.◌∷◌ c s) = leb b'0' (code c) && leb (code c) b'9' && digits_only s

abbrev is_dot : ℕ → Bool
is_dot c = eqb c b'.'

split_by-append :
    (p s : String)
    → digits_only p ≡ true
    → split_by is_dot (p +++ ("." +++ s)) ≡ p ∷ split_by is_dot s
unfolding split_by digits_only
split_by-append String.[] s h = rw (nil-append, cons-append, nil-append)
split_by-append (String.◌∷◌ c p) s h = simp cons-append (ground (arith, split_by-append p s))

split_by-digits : (p : String) → digits_only p ≡ true → split_by is_dot p ≡ p ∷ []
unfolding split_by digits_only
split_by-digits String.[] h = refl
split_by-digits (String.◌∷◌ c p) h = ground (arith, split_by-digits p)

kind_of-append : (p s : String) → digits_only p ≡ true → kind_of (p +++ ("." +++ s)) ≡ dotted
unfolding kind_of digits_only
kind_of-append String.[] s h = rw (nil-append, cons-append)
kind_of-append (String.◌∷◌ c p) s h = simp cons-append (ground (arith, kind_of-append p s))

-- Every octet, by evaluation.
reads_back : ℕ → Bool
unfolding digits_only
reads_back k = elim (parse_octet (itoa k)) [
  | none ↦ false
  | some n ↦ eqb n k && digits_only (itoa k)
]

all_below : ℕ → Bool
all_below zero = true
all_below (suc n) = reads_back n && all_below n

all_below_sound : (n k : ℕ) → all_below n ≡ true → k < n → reads_back k ≡ true
unfolding all_below
all_below_sound zero k h lt = absurd (omega arith)
all_below_sound (suc n) k h lt = ground (arith, all_below_sound n k)

octet_table : all_below 256 ≡ true
unfolding all_below reads_back parse_octet itoa
octet_table = refl

parse_octet-itoa :
    (k : ℕ) → k < 256 → (parse_octet (itoa k) ≡ some k) × (digits_only (itoa k) ≡ true)
unfolding reads_back
parse_octet-itoa k h = ground (arith, all_below_sound 256 k octet_table h)

module _ (a b c d : ℕ) (ha : a < 256) (hb : b < 256) (hc : c < 256) (hd : d < 256) where
  abbrev quad : String
  quad = itoa a +++ ("." +++ (itoa b +++ ("." +++ (itoa c +++ ("." +++ itoa d)))))

  split-quad : split_by is_dot quad ≡ itoa a ∷ itoa b ∷ itoa c ∷ itoa d ∷ []
  split-quad = rw (
    split_by-append _ (itoa b +++ ("." +++ (itoa c +++ ("." +++ itoa d))))
        (parse_octet-itoa a ha).1,
    split_by-append _ (itoa c +++ ("." +++ itoa d)) (parse_octet-itoa b hb).1,
    split_by-append _ (itoa d) (parse_octet-itoa c hc).1,
    split_by-digits _ (parse_octet-itoa d hd).1,
  )

  parse_v4-quad : parse_v4 quad ≡ some (from_octets a b c d)
  unfolding parse_v4
  parse_v4-quad = rw split-quad (
      ground (
        arith,
        parse_octet-itoa a ha,
        parse_octet-itoa b hb,
        parse_octet-itoa c hc,
        parse_octet-itoa d hd,
      ))

  parse_ip-quad : parse_ip quad ≡ some (v4 (from_octets a b c d))
  unfolding parse_ip
  parse_ip-quad = ground (
    arith,
    parse_v4-quad,
    kind_of-append (itoa a) (itoa b +++ ("." +++ (itoa c +++ ("." +++ itoa d))))
        (parse_octet-itoa a ha).1,
  )

octets-from_octets :
    (n : ℕ) → from_octets (n / 2 ^ 24) (n / 2 ^ 16 % 256) (n / 2 ^ 8 % 256) (n % 256) ≡ n
octets-from_octets n = omega arith

-- The text of an IPv4 address, a number below 2 ^ 32, is read back as that address.
pub parse_ip-ip_text : (n : ℕ) → n < 2 ^ 32 → parse_ip (ip_text (v4 n)) ≡ some (v4 n)
unfolding ip_text print_v4
parse_ip-ip_text n h =
    parse_ip-quad (n / 2 ^ 24) (n / 2 ^ 16 % 256) (n / 2 ^ 8 % 256) (n % 256) (omega arith)
      (omega arith) (omega arith) (omega arith)
    ∙ ap (λ (m : ℕ). some (v4 m)) (octets-from_octets n)
