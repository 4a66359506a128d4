-- ===== src/Ovn/Gateway/Written.antt =====
-- What the transactions of a drain and of a restore do to the Gateway_Chassis rows.
use ovn_route_agent.Base.{
  ℤ, Bool, true, false, ◌&&◌, ◌≡◌, refl, sym, ap, ◌∙◌, List, [], ◌∷◌, ◌==◌, if◌then◌else◌, arith,
  eq_refl, All, All-map, any, filter, map, Bool-cases, inl, inr,
}
use ovn_route_agent.Ovn.Rows.{NbGatewayChassis}
use ovn_route_agent.Ovn.Gateway.Defs.{
  Op, set_priority, Txn, Database, built, transact_ops, transact_if_any,
}
use ovn_route_agent.Ovn.Gateway.Drain.{set_to}

-- What an operation does to a row, and transactions, the last one first, to the table.
unfoldable pub write : Op → NbGatewayChassis → NbGatewayChassis
write (set_priority s p) r = if s.uuid == r.uuid then record r { priority = p } else r
write _ r = r

unfoldable pub written : Txn → NbGatewayChassis → NbGatewayChassis
unfolding write
written [] r = r
written (op ∷ ops) r = written ops (write op r)

unfoldable pub rows_after : List Txn → List NbGatewayChassis → List NbGatewayChassis
unfolding written
rows_after [] rows = rows
rows_after (ops ∷ sent) rows = map (written ops) (rows_after sent rows)

-- Rows with one uuid are one row.
abbrev SameRow : NbGatewayChassis → NbGatewayChassis → Type 0
SameRow r s = (s.uuid == r.uuid) ≡ true → s ≡ r

abbrev pub UniqueIds : List NbGatewayChassis → Type 0
UniqueIds rows = All (λ r. All (SameRow r) rows) rows

write_hit :
    (p : ℤ) (x r : NbGatewayChassis)
    → (x.uuid == r.uuid) ≡ true
    → write (set_priority x p) r ≡ record r { priority = p }
unfolding write
write_hit p x r e = rw e refl

write_miss :
    (p : ℤ) (x r : NbGatewayChassis) → (x.uuid == r.uuid) ≡ false → write (set_priority x p) r ≡ r
unfolding write
write_miss p x r e = rw e refl

write_again :
    (p : ℤ) (x r : NbGatewayChassis)
    → write (set_priority x p) (record r { priority = p }) ≡ record r { priority = p }
write_again p x r = elim (Bool-cases (x.uuid == r.uuid)) [
  | inl e ↦ write_hit p x (record r { priority = p }) e
  | inr e ↦ write_miss p x (record r { priority = p }) e
]

written_again :
    (p : ℤ) (r : NbGatewayChassis) (xs : List NbGatewayChassis)
    → written (map (set_to p) xs) (record r { priority = p }) ≡ record r { priority = p }
unfolding written
written_again p r [] = refl
written_again p r (x ∷ xs) =
    ap (written (map (set_to p) xs)) (write_again p x r) ∙ written_again p r xs

written-filter :
    (p : ℤ) (q : NbGatewayChassis → Bool) (r : NbGatewayChassis) (xs : List NbGatewayChassis)
    → All (SameRow r) xs
    → written (map (set_to p) (filter q xs)) r
      ≡ (if q r && any (λ s. s.uuid == r.uuid) xs then record r { priority = p } else r)
unfolding written filter any
written-filter p q r [] u = elim (Bool-cases (q r)) [ inl e ↦ rw e refl | inr e ↦ rw e refl ]
written-filter p q r (x ∷ xs) u = elim (Bool-cases (x.uuid == r.uuid)) [
  | inl e ↦ elim (Bool-cases (q r)) [
    | inl k ↦
        let qx : q x ≡ true = ap q (u.0 e) ∙ k in
        rw (qx, e, k)
          (ap (written (map (set_to p) (filter q xs))) (write_hit p x r e)
            ∙ written_again p r (filter q xs))
    | inr k ↦
        let qx : q x ≡ false = ap q (u.0 e) ∙ k in rw (qx, written-filter p q r xs u.1, k) refl
  ]
  | inr e ↦ elim (Bool-cases (q x)) [
    | inl k ↦
        rw (k, e)
          (ap (written (map (set_to p) (filter q xs))) (write_miss p x r e)
            ∙ written-filter p q r xs u.1)
    | inr k ↦ rw (k, e) (written-filter p q r xs u.1)
  ]
]

map_ext :
    (f g : NbGatewayChassis → NbGatewayChassis) (xs : List NbGatewayChassis)
    → All (λ x. f x ≡ g x) xs
    → map f xs ≡ map g xs
map_ext f g [] h = refl
map_ext f g (x ∷ xs) h = rw (h.0, map_ext f g xs h.1) refl

any-All :
    (xs ys : List NbGatewayChassis)
    → ((r : NbGatewayChassis)
        → any (λ s. s.uuid == r.uuid) xs ≡ true
        → any (λ s. s.uuid == r.uuid) ys ≡ true)
    → All (λ r. any (λ s. s.uuid == r.uuid) ys ≡ true) xs
unfolding any
any-All [] ys f = tt
any-All (x ∷ xs) ys f = (f x (rw (eq_refl x.uuid) refl), any-All xs ys (λ r e. f r (ground arith)))

-- One value is set in the rows that pass a test.
abbrev pub set_where : ℤ → (NbGatewayChassis → Bool) → NbGatewayChassis → NbGatewayChassis
set_where p q r = if q r then record r { priority = p } else r

pub map-written :
    (p : ℤ) (q : NbGatewayChassis → Bool) (rows : List NbGatewayChassis)
    → UniqueIds rows
    → map (written (map (set_to p) (filter q rows))) rows ≡ map (set_where p q) rows
map-written p q rows u = map_ext _ _ rows (go rows u (any-All rows rows (λ r e. e)))
  where
    go :
        (xs : List NbGatewayChassis)
        → All (λ r. All (SameRow r) rows) xs
        → All (λ r. any (λ s. s.uuid == r.uuid) rows ≡ true) xs
        → All (λ r. written (map (set_to p) (filter q rows)) r ≡ set_where p q r) xs
    go [] u h = tt
    go (x ∷ xs) u h = (
      written-filter p q x rows u.0
          ∙ (elim (Bool-cases (q x)) [ inl e ↦ rw (e, h.0) refl | inr e ↦ rw e refl ]),
      go xs u.1 h.1,
    )

All-mapped :
    (P : NbGatewayChassis → Type 0) (f : NbGatewayChassis → NbGatewayChassis)
    (xs : List NbGatewayChassis)
    → All (λ x. P (f x)) xs
    → All P (map f xs)
All-mapped P f [] h = tt
All-mapped P f (x ∷ xs) h = (h.0, All-mapped P f xs h.1)

set_where-uuid :
    (p : ℤ) (q : NbGatewayChassis → Bool) (r : NbGatewayChassis) → (set_where p q r).uuid ≡ r.uuid
set_where-uuid p q r = elim (Bool-cases (q r)) [ inl e ↦ rw e refl | inr e ↦ rw e refl ]

pub map-UniqueIds :
    (p : ℤ) (q : NbGatewayChassis → Bool) (rows : List NbGatewayChassis)
    → UniqueIds rows
    → UniqueIds (map (set_where p q) rows)
map-UniqueIds p q rows u = All-mapped _ (set_where p q) rows (
    All-map _ _ rows
      (λ r same. All-mapped _ (set_where p q) rows (
        All-map _ _ rows
          (λ s one e.
            ap (set_where p q) (one (rw (set_where-uuid p q s, set_where-uuid p q r) at e)))
          same))
      u)

pub all_built :
    (db : Database) (ops : List Op) → ((op : Op) → db.builds op ≡ true) → built db ops ≡ ops
unfolding built filter
all_built db [] b = refl
all_built db (op ∷ ops) b = rw (b op, all_built db ops b) refl

pub map-id : (rows : List NbGatewayChassis) → map (written []) rows ≡ rows
unfolding written
map-id [] = refl
map-id (r ∷ rows) = ap (λ rs. r ∷ rs) (map-id rows)

pub rows_after-transact_if_any :
    (db : Database) (ops : List Op) (rows : List NbGatewayChassis)
    → rows_after (transact_if_any db ops []).1 rows ≡ map (written ops) rows
unfolding transact_if_any transact_ops rows_after
rows_after-transact_if_any db [] rows = sym (map-id rows)
rows_after-transact_if_any db (op ∷ ops) rows = refl
