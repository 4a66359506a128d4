-- ===== src/Routing/Permitted.antt =====
-- What `ReconcileFRRPrefixList` of routing.go sends.
use ovn_route_agent.Base.{
  ℤ, pos, ◌+ℤ◌, +ℤ_parts, ◌<ℤ◌, ◌≤ℤ◌, ltb_ℤ, String, Bool, true, false, ◌||◌, ◌≡◌, ◌⊎◌, refl, sym,
  ◌∙◌, Option, none, some, List, [], ◌∷◌, ◌==◌, All, In, map, elem, lookup, insert, In-insert,
  lookup-insert, is_some, set_of, if◌then◌else◌, Bool-cases, subst, arith, eq_iff, inl, inr,
}
use ovn_route_agent.Net.{IpNet, net_text}
use ovn_route_agent.Routing.Prefixes.{
  PrefixListEntry, Command, permit, withdraw, Runner, Writer, finished, issue, by_network, max_seq,
  add_missing_entries, remove_stale_entries, and_then, change_entries, reconcile_frr_prefix_list,
}

abbrev Keeps : (Command → Type 0) → Writer → Type 0
Keeps P w = (sent : List Command) → All P sent → All P (w sent).1

abbrev pub network_of : PrefixListEntry → String
network_of e = e.network

-- An entry is permitted where its network is wanted and not listed, behind all listed entries, and
-- withdrawn where it is listed and its network is not wanted.
abbrev pub Fits : List PrefixListEntry → (desired : List String) → Command → Type 0
Fits entries desired (permit seq network) =
    (elem network desired ≡ true)
    × (elem network (map network_of entries) ≡ false)
    × All (λ e. e.seq <ℤ seq) entries
Fits entries desired (withdraw seq network) =
    (elem network desired ≡ false)
    × ((e : PrefixListEntry) × In e entries × (e.seq ≡ seq) × (e.network ≡ network))

module _ (P : Command → Type 0) (run : Runner) where
  issue-Keeps : (c : Command) (rest : Writer) → P c → Keeps P rest → Keeps P (issue run c rest)
  issue-Keeps c rest fits keeps sent kept = elim (Bool-cases (run sent c)) [
    | inl e ↦ rw e (keeps (c ∷ sent) (fits, kept))
    | inr e ↦ rw e (fits, kept)
  ]

  and_then-Keeps : (b : Bool) (k : Writer) → Keeps P k → Keeps P (and_then b k)
  and_then-Keeps true k keeps sent kept = keeps sent kept
  and_then-Keeps false k keeps sent kept = kept

max_seq-above : (entries : List PrefixListEntry) (m : ℤ) → m ≤ℤ max_seq entries m
unfolding max_seq
max_seq-above [] m = omega arith
max_seq-above (e ∷ es) m = elim (Bool-cases (ltb_ℤ m e.seq)) [
  | inl t ↦ rw t (ground (arith, max_seq-above es e.seq, t))
  | inr t ↦ rw t (max_seq-above es m)
]

if-above : (a m : ℤ) → a ≤ℤ (if ltb_ℤ m a then a else m)
if-above a m = elim (Bool-cases (ltb_ℤ m a)) [
  | inl t ↦ rw t (omega arith)
  | inr t ↦ rw t (ground (arith, t))
]

max_seq-bound :
    (entries : List PrefixListEntry) (m top : ℤ)
    → max_seq entries m ≡ top
    → All (λ e. e.seq ≤ℤ top) entries
unfolding max_seq
max_seq-bound [] m top q = tt
max_seq-bound (e ∷ es) m top q =
    let m' = if ltb_ℤ m e.seq then e.seq else m in
    let above : m' ≤ℤ top = subst (λ t. m' ≤ℤ t) q (max_seq-above es m') in
    (omega (arith, above, if-above e.seq m), max_seq-bound es m' top q)

lookup-by_network :
    (n : String) (entries : List PrefixListEntry) (m : List (String × ℤ))
    → is_some (lookup n (by_network entries m))
      ≡ (elem n (map network_of entries) || is_some (lookup n m))
unfolding by_network elem
lookup-by_network n [] m = refl
lookup-by_network n (e ∷ es) m =
    lookup-by_network n es (insert e.network e.seq m)
    ∙ rw (lookup-insert e.network n e.seq m) (ground arith)

In-by_network :
    (n : String) (s : ℤ) (entries : List PrefixListEntry) (m : List (String × ℤ))
    → In (n, s) (by_network entries m)
    → ((e : PrefixListEntry) × In e entries × (e.seq ≡ s) × (e.network ≡ n)) ⊎ In (n, s) m
unfolding by_network
In-by_network n s [] m i = inr i
In-by_network n s (e ∷ es) m i = elim (In-by_network n s es (insert e.network e.seq m) i) [
  | inl (f, j, a, b) ↦ inl (f, inr j, a, b)
  | inr j ↦ elim (In-insert e.network n e.seq s m j) [
    | inl (a, b) ↦ inl (e, inl refl, sym b, sym a)
    | inr k ↦ inr k
  ]
]

not_some : {A : Type 0} (o : Option A) → is_some o ≡ false → o ≡ none
not_some none e = refl
not_some (some x) e = cc

add_missing_entries-Keeps :
    (P : Command → Type 0) (run : Runner) (current : List (String × ℤ)) (low m : ℤ)
    (ns : List String)
    → low ≤ℤ m
    → ((n : String) (seq : ℤ)
        → elem n ns ≡ true
        → lookup n current ≡ none
        → low <ℤ seq
        → P (permit seq n))
    → Keeps P (add_missing_entries run current m ns)
unfolding add_missing_entries elem
add_missing_entries-Keeps P run current low m [] above fits sent kept = kept
add_missing_entries-Keeps P run current low m (n ∷ ns) above fits sent kept =
    elim (Bool-cases (is_some (lookup n current))) [
      | inl e ↦ rw e (
          add_missing_entries-Keeps P run current low m ns above
            (λ k seq i. fits k seq (ground arith)) sent kept)
      | inr e ↦ rw e (
          issue-Keeps P run (permit (m +ℤ pos 5) n)
            (add_missing_entries run current (m +ℤ pos 5) ns)
            (fits n (m +ℤ pos 5) (ground (arith, eq_iff n n)) (not_some (lookup n current) e)
              (ground (arith, above, +ℤ_parts m (pos 5))))
            (add_missing_entries-Keeps P run current low (m +ℤ pos 5) ns
              (ground (arith, above, +ℤ_parts m (pos 5))) (λ k seq i. fits k seq (ground arith)))
            sent kept)
    ]

remove_stale_entries-Keeps :
    (P : Command → Type 0) (run : Runner) (desired : List String) (current : List (String × ℤ))
    → ((n : String) (seq : ℤ) → In (n, seq) current → elem n desired ≡ false → P (withdraw seq n))
    → Keeps P (remove_stale_entries run desired current)
unfolding remove_stale_entries
remove_stale_entries-Keeps P run desired [] fits sent kept = kept
remove_stale_entries-Keeps P run desired ((n, seq) ∷ current) fits sent kept =
    elim (Bool-cases (elem n desired)) [
      | inl e ↦
          rw e
            (remove_stale_entries-Keeps P run desired current (λ k s i. fits k s (inr i)) sent kept)
      | inr e ↦ rw e (
          issue-Keeps P run (withdraw seq n) (remove_stale_entries run desired current)
            (fits n seq (inl refl) e)
            (remove_stale_entries-Keeps P run desired current (λ k s i. fits k s (inr i))) sent
            kept)
    ]

-- Whatever vtysh answers, `ReconcileFRRPrefixList` permits a network only where it is wanted and not
-- listed, with a sequence number above all listed ones, and withdraws only listed entries whose
-- network is not wanted.
pub reconcile_frr_prefix_list-Fits :
    (run : Runner) (name : String) (dry_run : Bool) (entries : List PrefixListEntry)
    (networks : List IpNet)
    → All
        (Fits entries (set_of (map net_text networks)))
        (reconcile_frr_prefix_list run name dry_run (some entries) networks []).1
unfolding reconcile_frr_prefix_list
reconcile_frr_prefix_list-Fits run name dry_run entries networks =
    let desired = set_of (map net_text networks) in
    let P = Fits entries desired in
    let top = max_seq entries (pos 0) in
    let current = by_network entries [] in
    if_run-Keeps P (name == "" || dry_run) (change_entries run entries desired)
      (λ sent kept.
        and_then-Keeps P run _ (remove_stale_entries run desired current)
          (remove_stale_entries-Keeps P run desired current
            (λ n seq i unwanted. (unwanted, listed n seq (In-by_network n seq entries [] i))))
          _
          (add_missing_entries-Keeps P run current top top desired (omega arith)
            (λ n seq wanted new above. (
              wanted,
              ground (arith, lookup-by_network n entries [], new),
              behind entries seq top above (max_seq-bound entries (pos 0) top refl),
            ))
            sent kept))
      [] tt
  where
    listed :
        (n : String) (seq : ℤ)
        → ((e : PrefixListEntry) × In e entries × (e.seq ≡ seq) × (e.network ≡ n)) ⊎ ⊥
        → (e : PrefixListEntry) × In e entries × (e.seq ≡ seq) × (e.network ≡ n)
    listed n seq (inl found) = found
    listed n seq (inr none_left) = absurd none_left

    behind :
        (es : List PrefixListEntry) (seq top : ℤ)
        → top <ℤ seq
        → All (λ e. e.seq ≤ℤ top) es
        → All (λ e. e.seq <ℤ seq) es
    behind [] seq top above below = tt
    behind (e ∷ es) seq top above below =
        (omega (arith, above, below.0), behind es seq top above below.1)

    if_run-Keeps :
        (P : Command → Type 0) (b : Bool) (w : Writer)
        → Keeps P w
        → Keeps P (if b then finished else w)
    if_run-Keeps P true w keeps sent kept = kept
    if_run-Keeps P false w keeps sent kept = keeps sent kept
