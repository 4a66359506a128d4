-- ===== src/Routing/Prefixes.antt =====
-- `ListFRRPrefixListEntries` and `ReconcileFRRPrefixList` of routing.go.
use Prim.Native.String.{◌++◌ as ◌+++◌}
use ovn_route_agent.Base.{
  suc, ℤ, pos, negsuc, ◌+ℤ◌, ltb_ℤ, String, Bool, true, false, ◌&&◌, ◌||◌, Option, none, some, List,
  [], ◌∷◌, ◌==◌, eqb, map, elem, lookup, insert, is_some, set_of, contains_text, trim_space,
  split_by, fields, if◌then◌else◌,
}
use ovn_route_agent.Net.{IpNet, net_text, itoa}

-- `prefixListEntry`
pub record PrefixListEntry : Type 0 where
  pub seq : ℤ
  pub network : String

-- The calls of vtysh for one entry.
pub data Command : Type 0 where
  permit : (seq : ℤ) → (network : String) → Command
  withdraw : (seq : ℤ) → (network : String) → Command

unfoldable pub int_text : ℤ → String
unfolding itoa
int_text (pos n) = itoa n
int_text (negsuc n) = "-" +++ itoa (suc n)

abbrev entry_text : (name : String) → ℤ → (network : String) → String
entry_text name seq network =
    "ip prefix-list "
    +++ (name +++ (" seq " +++ (int_text seq +++ (" permit " +++ (network +++ " ge 32 le 32")))))

-- The arguments of vtysh.
unfoldable pub command_args : (name : String) → Command → List String
unfolding int_text
command_args name (permit seq network) =
    "-c" ∷ "conf t" ∷ "-c" ∷ entry_text name seq network ∷ "-c" ∷ "end" ∷ []
command_args name (withdraw seq network) =
    "-c" ∷ "conf t" ∷ "-c" ∷ ("no " +++ entry_text name seq network) ∷ "-c" ∷ "end" ∷ []

abbrev with_seq : Option ℤ → (network : String) → List PrefixListEntry → List PrefixListEntry
with_seq none network entries = entries
with_seq (some seq) network entries = record { seq = seq; network = network } ∷ entries

-- A line `seq <N> permit <network> ge 32 le 32`; `strconv.Atoi` is the argument `atoi`.
unfoldable pub add_line :
    (atoi : String → Option ℤ) → List String → List PrefixListEntry → List PrefixListEntry
add_line atoi (a ∷ n ∷ p ∷ network ∷ g ∷ low ∷ l ∷ high ∷ more) entries =
    if a == "seq" && p == "permit" && g == "ge" && low == "32" && l == "le" && high == "32"
    then with_seq (atoi n) network entries
    else entries
add_line atoi _ entries = entries

unfoldable pub parse_lines : (atoi : String → Option ℤ) → List String → List PrefixListEntry
unfolding add_line fields trim_space
parse_lines atoi [] = []
parse_lines atoi (line ∷ lines) = add_line atoi (fields (trim_space line)) (parse_lines atoi lines)

-- `ListFRRPrefixListEntries` on the output of vtysh, none where it fails.
unfoldable pub list_entries :
    (atoi : String → Option ℤ) → (name : String) → Option String → Option (List PrefixListEntry)
unfolding parse_lines contains_text trim_space split_by
list_entries atoi name output = if name == "" then some [] else elim output [
  | none ↦ none
  | some text ↦
      if contains_text text "Can't find" || trim_space text == ""
      then some []
      else some (parse_lines atoi (split_by (λ c. eqb c b'\n') text))
]

-- Whether a call succeeds, given the calls before it, the last one first.
abbrev pub Runner : Type 0
Runner = List Command → Command → Bool

abbrev pub Writer : Type 0
Writer = List Command → Bool × List Command

abbrev pub finished : Writer
finished sent = (true, sent)

-- One call, and the rest where it succeeds.
abbrev pub issue : Runner → Command → Writer → Writer
issue run command rest sent =
    let after = rest (command ∷ sent) in if run sent command then after else (false, command ∷ sent)

-- `currentByNetwork` and `maxSeq`
unfoldable pub by_network : List PrefixListEntry → List (String × ℤ) → List (String × ℤ)
unfolding insert
by_network [] m = m
by_network (e ∷ es) m = by_network es (insert e.network e.seq m)

unfoldable pub max_seq : List PrefixListEntry → ℤ → ℤ
max_seq [] m = m
max_seq (e ∷ es) m = max_seq es (if ltb_ℤ m e.seq then e.seq else m)

unfoldable pub add_missing_entries : Runner → List (String × ℤ) → ℤ → List String → Writer
unfolding lookup ◌+ℤ◌
add_missing_entries run current m [] = finished
add_missing_entries run current m (n ∷ ns) =
    let present = is_some (lookup n current) in
    let rest = add_missing_entries run current (if present then m else m +ℤ pos 5) ns in
    if present then rest else issue run (permit (m +ℤ pos 5) n) rest

unfoldable pub remove_stale_entries : Runner → (desired : List String) → List (String × ℤ) → Writer
unfolding elem
remove_stale_entries run desired [] = finished
remove_stale_entries run desired ((n, seq) ∷ current) =
    let rest = remove_stale_entries run desired current in
    if elem n desired then rest else issue run (withdraw seq n) rest

abbrev pub and_then : Bool → Writer → Writer
and_then true k sent = k sent
and_then false k sent = (false, sent)

abbrev pub then_run : Writer → Writer → Writer
then_run first second sent = let (ok, sent') = first sent in and_then ok second sent'

abbrev pub change_entries : Runner → List PrefixListEntry → (desired : List String) → Writer
change_entries run entries desired =
    then_run (add_missing_entries run (by_network entries []) (max_seq entries (pos 0)) desired)
      (remove_stale_entries run desired (by_network entries []))

abbrev pub on_entries : Option (List PrefixListEntry) → (List PrefixListEntry → Writer) → Writer
on_entries none k sent = (false, sent)
on_entries (some entries) k sent = k entries sent

-- `ReconcileFRRPrefixList`, true where it returns no error; `listed` is the result of the listing.
unfoldable pub reconcile_frr_prefix_list :
    Runner
    → (name : String) → (dry_run : Bool) → (listed : Option (List PrefixListEntry)) → List IpNet
    → Writer
unfolding by_network max_seq add_missing_entries remove_stale_entries set_of net_text
reconcile_frr_prefix_list run name dry_run listed networks =
    if name == "" || dry_run
    then finished
    else on_entries listed (λ entries. change_entries run entries (set_of (map net_text networks)))
