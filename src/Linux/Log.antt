-- ===== src/Linux/Log.antt =====
-- Invariants of the log of changes, which each method keeps as its calls do.
use ovn_route_agent.Base.{
  Bool, true, false, ◌≡◌, inr, refl, ap, Option, none, some, In, All, if◌then◌else◌,
}
use ovn_route_agent.Linux.Defs.{
  Change, Outcome, History, Kernel, Method, ok, fail, go_on, ◌>>◌, call, on_found, reading,
}

module _ (I : History → Type 0) where
  -- The method keeps the invariant.
  abbrev pub Keeps : Method → Type 0
  Keeps m = (h : History) → I h → I (m h).1

  go_on-Keeps : (b : Bool) (rest : Method) → Keeps rest → Keeps (go_on b rest)
  go_on-Keeps true rest keeps h i = keeps h i
  go_on-Keeps false rest keeps h i = i

  pub >>-Keeps : (first rest : Method) → Keeps first → Keeps rest → Keeps (first >> rest)
  >>-Keeps first rest f r h i = go_on-Keeps (first h).0 rest r (first h).1 (f h i)

  pub if-Keeps :
      (b : Bool) (m n : Method)
      → (b ≡ true → Keeps m)
      → (b ≡ false → Keeps n)
      → Keeps (if b then m else n)
  if-Keeps true m n f g = f refl
  if-Keeps false m n f g = g refl

  pub ok-Keeps : Keeps ok
  ok-Keeps h i = i

  pub fail-Keeps : Keeps fail
  fail-Keeps h i = i

  pub reading-Keeps :
      {A : Type 0} (query : History → Option A) (missing : Method) (found : A → Method)
      → Keeps missing
      → ((a : A) (h : History) → query h ≡ some a → I h → I (found a h).1)
      → Keeps (reading query missing found)
  reading-Keeps query missing found f g h i = go (query h) refl
    where
      go : (o : Option _) → query h ≡ o → I (on_found missing found o h).1
      go none e = f h i
      go (some a) e = g a h e i

-- Every change is of this kind.
abbrev pub AllOf : (Change → Type 0) → History → Type 0
AllOf P h = All (λ e. P e.0) h

-- The change was made.
abbrev pub Made : Change → History → Type 0
Made c h = (o : Outcome) × In (c, o) h

-- The change was made, with an outcome that the test accepts.
abbrev pub MadeWith : (Outcome → Bool) → Change → History → Type 0
MadeWith accepts c h = (o : Outcome) × (accepts o ≡ true) × In (c, o) h

pub call-AllOf :
    (P : Change → Type 0) (k : Kernel) (accepts : Outcome → Bool) (c : Change)
    → P c
    → Keeps (AllOf P) (call k accepts c)
call-AllOf P k accepts c p h i = (p, i)

-- A method only adds to the log.
abbrev pub Grows : Method → Type 0
Grows m = (e : Change × Outcome) → Keeps (In e) m

pub call-Grows : (k : Kernel) (accepts : Outcome → Bool) (c : Change) → Grows (call k accepts c)
call-Grows k accepts c e h i = inr i

-- What a sequence that returns no error has done.
pub >>-done :
    (first rest : Method) (h : History)
    → ((first >> rest) h).0 ≡ true
    → ((first h).0 ≡ true)
      × ((rest (first h).1).0 ≡ true)
      × (((first >> rest) h).1 ≡ (rest (first h).1).1)
>>-done first rest h e = go (first h).0 e
  where
    go :
        (b : Bool)
        → (go_on b rest (first h).1).0 ≡ true
        → (b ≡ true)
          × ((rest (first h).1).0 ≡ true)
          × ((go_on b rest (first h).1).1 ≡ (rest (first h).1).1)
    go true t = (refl, t, refl)
    go false t = cc

-- A sequence without errors does what its parts do, where the second keeps what the first did.
pub >>-Does :
    (P Q : History → Type 0) (first rest : Method) (h : History)
    → ((first h).0 ≡ true → P (first h).1)
    → Keeps P rest
    → ((rest (first h).1).0 ≡ true → Q (rest (first h).1).1)
    → ((first >> rest) h).0 ≡ true
    → P ((first >> rest) h).1 × Q ((first >> rest) h).1
>>-Does P Q first rest h p keeps q e =
    let (a, b, same) = >>-done first rest h e in (rw same (keeps (first h).1 (p a)), rw same (q b))

pub if_else-eq : (b : Bool) (m n : Method) (h : History) → b ≡ false → (if b then m else n) h ≡ n h
if_else-eq b m n h e = ap (λ c. (if c then m else n) h) e

pub reading-eq :
    {A : Type 0} (query : History → Option A) (missing : Method) (found : A → Method) (a : A)
    (h : History)
    → query h ≡ some a
    → reading query missing found h ≡ found a h
reading-eq query missing found a h e = ap (λ o. on_found missing found o h) e
