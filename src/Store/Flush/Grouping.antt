-- ===== src/Store/Flush/Grouping.antt =====
-- What the merge into the cache and the grouping by column family keep.
use Prim.Native.Nat.{Ordering}
use z1kv.Common.{
  ℕ, ◌≡◌, Bool, true, false, List, [], ◌∷◌, ◌++◌, In, In-nil, here, there, In-append_left,
  In-append_right, refl, ap, sym, subst, ◌==◌, ==_iff, Bool-cases, ltb, inl, inr, ◌⊎◌, arith,
}
use z1kv.Common.Map.{Map}
use z1kv.Store.Types.{Z1Entry, PatchEntry}
use z1kv.Store.Mem.{insert_version, version_cmp}
use z1kv.Store.RecentFlush.{insert_all}
use z1kv.Store.Flush.{to_patch_entry, push_group, group_by_cf}

-- The two entries are not versions of the same key by the same transaction.
unfoldable pub differ : Z1Entry → Z1Entry → Bool
unfolding version_cmp
differ e x = elim (version_cmp e x) [
  | Ordering.lt ↦ true
  | Ordering.eq ↦ false
  | Ordering.gt ↦ true
]

-- Each entry of the list is of another version than `x`.
abbrev pub Apart : Z1Entry → List Z1Entry → Type 0
Apart x [] = Unit
Apart x (e ∷ es) = (differ e x ≡ true) × Apart x es

-- No version stands twice, as in the map that the list is.
abbrev pub Versions : List Z1Entry → Type 0
Versions [] = Unit
Versions (e ∷ es) = Apart e es × Versions es

Ordering-cases : (o : Ordering) → (o ≡ Ordering.lt) ⊎ ((o ≡ Ordering.eq) ⊎ (o ≡ Ordering.gt))
Ordering-cases Ordering.lt = inl refl
Ordering-cases Ordering.eq = inr (inl refl)
Ordering-cases Ordering.gt = inr (inr refl)

In-insert_new : (e : Z1Entry) (es : List Z1Entry) → In e (insert_version e es)
unfolding insert_version
In-insert_new e [] = here refl
In-insert_new e (x ∷ xs) = elim (Ordering-cases (version_cmp e x)) [
  | inl lt ↦ rw (lt, insert_version) (here {xs = x ∷ xs} refl)
  | inr (inl eq) ↦ rw (eq, insert_version) (here {xs = xs} refl)
  | inr (inr gt) ↦ rw (gt, insert_version) (there {y = x} (In-insert_new e xs))
]

In-insert_old :
    (e : Z1Entry) (es : List Z1Entry) {x : Z1Entry}
    → differ e x ≡ true
    → In x es
    → In x (insert_version e es)
unfolding insert_version differ
In-insert_old e [] {x} d m = absurd (In-nil m)
In-insert_old e (y ∷ ys) {x} d (here same) = elim (Ordering-cases (version_cmp e y)) [
  | inl lt ↦ rw (lt, insert_version) (there {y = e} (here same))
  | inr (inl eq) ↦ absurd (ground (arith, same, ap (version_cmp e) same))
  | inr (inr gt) ↦ rw (gt, insert_version) (here same)
]
In-insert_old e (y ∷ ys) {x} d (there m) = elim (Ordering-cases (version_cmp e y)) [
  | inl lt ↦ rw (lt, insert_version) (there {y = e} (there m))
  | inr (inl eq) ↦ rw (eq, insert_version) (there m)
  | inr (inr gt) ↦ rw (gt, insert_version) (there (In-insert_old e ys d m))
]

-- A cached entry stays unless one of the new ones replaces it.
pub In-insert_all_old :
    (es cache : List Z1Entry) {x : Z1Entry} → Apart x es → In x cache → In x (insert_all es cache)
unfolding insert_all
In-insert_all_old [] cache d m = m
In-insert_all_old (e ∷ es) cache d m =
    In-insert_all_old es (insert_version e cache) d.1 (In-insert_old e cache d.0 m)

pub In-insert_all_new :
    (es cache : List Z1Entry) {x : Z1Entry} → Versions es → In x es → In x (insert_all es cache)
unfolding insert_all
In-insert_all_new [] cache d m = absurd (In-nil m)
In-insert_all_new (e ∷ es) cache {x} d (here same) =
    subst (λ y. In y (insert_all es (insert_version e cache))) same
      (In-insert_all_old es (insert_version e cache) d.0 (In-insert_new e cache))
In-insert_all_new (e ∷ es) cache d (there m) = In-insert_all_new es (insert_version e cache) d.1 m

-- The groups hold the entry, under its column family.
abbrev pub Grouped : ℕ → PatchEntry → Map (List PatchEntry) → Type 0
Grouped cf pe groups = (es : List PatchEntry) × In (cf, es) groups × In pe es

Grouped-push_new :
    (cf : ℕ) (pe : PatchEntry) (groups : Map (List PatchEntry))
    → Grouped cf pe (push_group cf pe groups)
unfolding push_group
Grouped-push_new cf pe [] = (pe ∷ [], here refl, here refl)
Grouped-push_new cf pe ((c, es) ∷ groups) = elim (Bool-cases (c == cf)) [
  | inl same ↦
      rw (same, push_group)
        (
          es ++ pe ∷ [],
          here (ap (λ (k : ℕ). (k, es ++ pe ∷ [])) ((==_iff c cf).0 same)),
          In-append_right es (here refl),
        )
  | inr other ↦ elim (Bool-cases (ltb cf c)) [
    | inl lt ↦ rw (other, lt, push_group) (pe ∷ [], here refl, here refl)
    | inr ge ↦
        let (fs, at, m) = Grouped-push_new cf pe groups in
        rw (other, ge, push_group) (fs, there at, m)
  ]
]

Grouped-push_old :
    (cf : ℕ) (pe : PatchEntry) (groups : Map (List PatchEntry)) (k : ℕ) (x : PatchEntry)
    → Grouped k x groups
    → Grouped k x (push_group cf pe groups)
unfolding push_group
Grouped-push_old cf pe [] k x (fs, at, m) = absurd (In-nil at)
Grouped-push_old cf pe ((c, es) ∷ groups) k x (fs, here same, m) = elim (Bool-cases (c == cf)) [
  | inl eq ↦
      rw (eq, push_group)
        (
          es ++ pe ∷ [],
          here (ap (λ (q : ℕ × List PatchEntry). (q.0, es ++ pe ∷ [])) same),
          In-append_left (pe ∷ [])
              (subst (In x) (sym (ap (λ (q : ℕ × List PatchEntry). q.1) same)) m),
        )
  | inr other ↦ elim (Bool-cases (ltb cf c)) [
    | inl lt ↦ rw (other, lt, push_group) (fs, there {y = (cf, pe ∷ [])} (here same), m)
    | inr ge ↦ rw (other, ge, push_group) (fs, here same, m)
  ]
]
Grouped-push_old cf pe ((c, es) ∷ groups) k x (fs, there at, m) = elim (Bool-cases (c == cf)) [
  | inl eq ↦ rw (eq, push_group) (fs, there at, m)
  | inr other ↦ elim (Bool-cases (ltb cf c)) [
    | inl lt ↦ rw (other, lt, push_group) (fs, there {y = (cf, pe ∷ [])} (there at), m)
    | inr ge ↦
        let (hs, at', m') = Grouped-push_old cf pe groups k x (fs, at, m) in
        rw (other, ge, push_group) (hs, there at', m')
  ]
]

Grouped-group_old :
    (es : List Z1Entry) (groups : Map (List PatchEntry)) (k : ℕ) (x : PatchEntry)
    → Grouped k x groups
    → Grouped k x (group_by_cf es groups)
unfolding group_by_cf
Grouped-group_old [] groups k x g = g
Grouped-group_old (e ∷ es) groups k x g =
    Grouped-group_old es (push_group e.key.cf (to_patch_entry e) groups) k x
      (Grouped-push_old e.key.cf (to_patch_entry e) groups k x g)

-- Every entry is in the group of its column family.
pub Grouped-group_by_cf :
    (es : List Z1Entry) (groups : Map (List PatchEntry)) (x : Z1Entry)
    → In x es
    → Grouped x.key.cf (to_patch_entry x) (group_by_cf es groups)
unfolding group_by_cf
Grouped-group_by_cf [] groups x m = absurd (In-nil m)
Grouped-group_by_cf (e ∷ es) groups x (here same) =
    subst
      (λ (y : Z1Entry).
        Grouped y.key.cf (to_patch_entry y)
          (group_by_cf es (push_group e.key.cf (to_patch_entry e) groups)))
      same
      (Grouped-group_old es (push_group e.key.cf (to_patch_entry e) groups) e.key.cf
        (to_patch_entry e) (Grouped-push_new e.key.cf (to_patch_entry e) groups))
Grouped-group_by_cf (e ∷ es) groups x (there m) =
    Grouped-group_by_cf es (push_group e.key.cf (to_patch_entry e) groups) x m
