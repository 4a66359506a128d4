-- ===== src/Nft/Rules.antt =====
-- The lines of the rule set of `buildNftRuleset` in nftables.go, one constructor for each of its
-- formats, and their texts.
use Prim.Native.String.{◌++◌ as ◌+++◌}
use ovn_route_agent.Base.{ℕ, ℤ, String, List, [], ◌∷◌, ◌++◌, join}
use ovn_route_agent.Net.{itoa}
use ovn_route_agent.Routing.Prefixes.{int_text}

abbrev pub nft_table_name : String
nft_table_name = "ovn-network-agent"

abbrev pub veth_default_name : String
veth_default_name = "veth-default"

abbrev pub veth_provider_name : String
veth_provider_name = "veth-provider"

abbrev pub dnat_fwmark : ℕ
dnat_fwmark = 0x100

abbrev pub dnat_reply_fwmark : ℕ
dnat_reply_fwmark = 0x200

pub data Rule : Type 0 where
  zone_original : (vip proto : String) → (port zone : ℤ) → Rule
  zone_reply : (addr proto : String) → (port zone : ℤ) → Rule
  dnat_single : (vip proto : String) → (port : ℤ) → (addr : String) → (dest_port : ℤ) → Rule
  dnat_balanced :
      (vip proto : String)
      → (port : ℤ) → (modulus : ℕ) → (backends : List (ℕ × String)) → (dest_port : ℤ) → Rule
  mark_original : (vips : List String) → Rule
  mark_reply : (vips : List String) → Rule
  accept_sources : (networks : List String) → Rule
  accept_reply : Rule
  drop_rest : Rule
  clear_mark : Rule
  masquerade_backend : (addr proto : String) → (port : ℤ) → Rule
  masquerade_sources : (sources : List String) → (vip : String) → Rule

pub record Chain : Type 0 where
  pub name : String
  pub hook : String
  pub rules : List Rule

-- The writes of a `strings.Builder`, in order.
unfoldable pub written : List String → String
written [] = ""
written (s ∷ ss) = s +++ written ss

-- A set of several elements stands in braces.
abbrev pub braced : List String → String
braced xs = "{ " +++ (join ", " xs +++ " }")

abbrev pub source_match : List String → String
source_match (x ∷ []) = x
source_match xs = braced xs

-- `ct original daddr %s` for one VIP, else `ct original ip daddr { %s }`.
abbrev pub original_daddr : List String → String
original_daddr (vip ∷ []) = "ct original daddr " +++ vip
original_daddr vips = "ct original ip daddr " +++ braced vips

abbrev pub backend_texts : List (ℕ × String) → (dest_port : String) → List String
backend_texts [] dest_port = []
backend_texts ((i, addr) ∷ backends) dest_port =
    written (itoa i ∷ " : " ∷ addr ∷ " . " ∷ dest_port ∷ []) ∷ backend_texts backends dest_port

-- `0x%x` of the two marks
abbrev pub forward_mark : String
forward_mark = "0x100"

abbrev pub reply_mark : String
reply_mark = "0x200"

unfoldable pub rule_text : Rule → String
unfolding written join int_text
rule_text (zone_original vip proto port zone) = written (
    "ip daddr "
    ∷ vip
    ∷ " "
    ∷ proto
    ∷ " dport "
    ∷ int_text port
    ∷ " ct zone set "
    ∷ int_text zone
    ∷ [])
rule_text (zone_reply addr proto port zone) = written (
    "ip saddr "
    ∷ addr
    ∷ " "
    ∷ proto
    ∷ " sport "
    ∷ int_text port
    ∷ " ct zone set "
    ∷ int_text zone
    ∷ [])
rule_text (dnat_single vip proto port addr dest_port) = written (
    "ip daddr "
    ∷ vip
    ∷ " "
    ∷ proto
    ∷ " dport "
    ∷ int_text port
    ∷ " dnat to "
    ∷ addr
    ∷ ":"
    ∷ int_text dest_port
    ∷ [])
rule_text (dnat_balanced vip proto port modulus backends dest_port) = written (
    "ip daddr "
    ∷ vip
    ∷ " "
    ∷ proto
    ∷ " dport "
    ∷ int_text port
    ∷ " dnat to jhash ip saddr mod "
    ∷ itoa modulus
    ∷ " map { "
    ∷ join ", " (backend_texts backends (int_text dest_port))
    ∷ " }"
    ∷ [])
rule_text (mark_original vips) = written (
    "ct direction original ct status dnat "
    ∷ original_daddr vips
    ∷ " meta mark set "
    ∷ forward_mark
    ∷ [])
rule_text (mark_reply vips) = written (
    "ct direction reply ct status dnat "
    ∷ original_daddr vips
    ∷ " meta mark set "
    ∷ reply_mark
    ∷ [])
rule_text (accept_sources networks) =
    written ("oifname \"" ∷ veth_default_name ∷ "\" ip saddr " ∷ braced networks ∷ " accept" ∷ [])
rule_text accept_reply =
    written ("oifname \"" ∷ veth_default_name ∷ "\" meta mark " ∷ reply_mark ∷ " accept" ∷ [])
rule_text drop_rest = written ("oifname \"" ∷ veth_default_name ∷ "\" drop" ∷ [])
rule_text clear_mark =
    written
      ("oifname \"" ∷ veth_default_name ∷ "\" meta mark " ∷ reply_mark ∷ " meta mark set 0" ∷ [])
rule_text (masquerade_backend addr proto port) = written (
    "ip daddr "
    ∷ addr
    ∷ " "
    ∷ proto
    ∷ " dport "
    ∷ int_text port
    ∷ " ct status dnat masquerade"
    ∷ [])
rule_text (masquerade_sources sources vip) = written (
    "ip saddr "
    ∷ source_match sources
    ∷ " ct original daddr "
    ∷ vip
    ∷ " ct status dnat masquerade"
    ∷ [])

unfoldable pub rule_lines : List Rule → List String
unfolding rule_text
rule_lines [] = []
rule_lines (r ∷ rs) = "        " ∷ rule_text r ∷ "\n" ∷ rule_lines rs

unfoldable pub chain_lines : List Chain → List String
unfolding rule_lines
chain_lines [] = []
chain_lines (c ∷ cs) =
    "    chain "
    ∷ c.name
    ∷ " {\n        "
    ∷ c.hook
    ∷ " policy accept;\n"
    ∷ (rule_lines c.rules ++ ("    }\n" ∷ chain_lines cs))

unfoldable pub table_text : List Chain → String
unfolding chain_lines written
table_text chains =
    written ("table ip " ∷ nft_table_name ∷ " {\n" ∷ (chain_lines chains ++ ("}\n" ∷ [])))
