-- ===== src/Ovn/Cache/Keys.antt =====
-- Content keys tell rows apart.
use Prim.Native.Char.{code}
use Prim.Native.String.{◌++◌ as ◌+++◌}
use text.Mathlib.TextLemmas.{cons-append, nil-append}
use ovn_route_agent.Base.{
  ℕ, String, Bool, true, not, ◌&&◌, ◌≡◌, refl, sym, ap, ◌∙◌, List, [], ◌∷◌, arith, eqb, split_by,
  All,
}
use ovn_route_agent.Ovn.Cache.{separator, content_key}

abbrev is_separator : ℕ → Bool
is_separator c = eqb c 0x1f

-- The text does not hold the separator.
unfoldable pub separator_free : String → Bool
separator_free String.[] = true
separator_free (String.◌∷◌ c s) = not (is_separator (code c)) && separator_free s

abbrev pub Free : String → Type 0
Free s = separator_free s ≡ true

split_by-append :
    (p s : String)
    → Free p
    → split_by is_separator (p +++ (separator +++ s)) ≡ p ∷ split_by is_separator s
unfolding split_by separator_free
split_by-append String.[] s h = rw (nil-append, cons-append, nil-append)
split_by-append (String.◌∷◌ c p) s h = simp cons-append (ground (arith, split_by-append p s))

split_by-last : (p : String) → Free p → split_by is_separator p ≡ p ∷ []
unfolding split_by separator_free
split_by-last String.[] h = refl
split_by-last (String.◌∷◌ c p) h = ground (arith, split_by-last p)

-- The parts can be read off a key.
split_by-content_key :
    (p : String) (ps : List String)
    → All Free (p ∷ ps)
    → split_by is_separator (content_key (p ∷ ps)) ≡ p ∷ ps
unfolding content_key
split_by-content_key p [] h = split_by-last p h.0
split_by-content_key p (q ∷ ps) h =
    split_by-append p (content_key (q ∷ ps)) h.0 ∙ ap (λ l. p ∷ l) (split_by-content_key q ps h.1)

-- Two non-empty tuples of attributes, none of which holds the separator, have the same key only if
-- they are the same tuple.
pub content_key_injective :
    (p q : String) (ps qs : List String)
    → All Free (p ∷ ps)
    → All Free (q ∷ qs)
    → content_key (p ∷ ps) ≡ content_key (q ∷ qs)
    → p ∷ ps ≡ q ∷ qs
content_key_injective p q ps qs hp hq e =
    sym (split_by-content_key p ps hp) ∙ ap (split_by is_separator) e ∙ split_by-content_key q qs hq
