-- ===== src/Store/Disk/Paths.antt =====
-- Maps whose keys are the paths of patch files, `{cf:04x}/{patch_id:016}.zpatch`.
use z1kv.Common.{
  ℕ, ◌≡◌, Bool, true, ◌&&◌, Option, none, some, List, [], ◌∷◌, ◌==◌, if◌then◌else◌, arith,
}

pub record PatchPath : Type 0 where
  pub cf : ℕ
  pub patch_id : ℕ

abbrev pub path_eq : PatchPath → PatchPath → Bool
path_eq p q = (p.cf == q.cf) && (p.patch_id == q.patch_id)

abbrev pub PathMap : Type 0 → Type 0
PathMap V = List (PatchPath × V)

module _ {V : Type 0} where
  unfoldable pub lookup : PatchPath → PathMap V → Option V
  lookup p [] = none
  lookup p ((q, v) ∷ m) = if path_eq q p then some v else lookup p m

  unfoldable pub forget : PatchPath → PathMap V → PathMap V
  forget p [] = []
  forget p ((q, v) ∷ m) = let rest = forget p m in if path_eq q p then rest else (q, v) ∷ rest

  -- `HashMap::insert`, and writing a file.
  unfoldable pub store : PatchPath → V → PathMap V → PathMap V
  unfolding forget
  store p v m = (p, v) ∷ forget p m

  -- Everything under the directory of a column family goes.
  unfoldable pub forget_cf : ℕ → PathMap V → PathMap V
  forget_cf cf [] = []
  forget_cf cf ((q, v) ∷ m) =
      let rest = forget_cf cf m in if q.cf == cf then rest else (q, v) ∷ rest

  pub lookup-forget :
      (p q : PatchPath) (m : PathMap V)
      → lookup q (forget p m) ≡ (if path_eq p q then none else lookup q m)
  unfolding lookup forget
  lookup-forget p q [] = ground arith
  lookup-forget p q ((r, v) ∷ m) = ground (arith, lookup-forget p q m)

  pub lookup-store :
      (p q : PatchPath) (v : V) (m : PathMap V)
      → lookup q (store p v m) ≡ (if path_eq p q then some v else lookup q m)
  unfolding lookup store
  lookup-store p q v m = ground (arith, lookup-forget p q m)

  pub lookup-forget_cf :
      (cf : ℕ) (q : PatchPath) (m : PathMap V)
      → lookup q (forget_cf cf m) ≡ (if q.cf == cf then none else lookup q m)
  unfolding lookup forget_cf
  lookup-forget_cf cf q [] = ground arith
  lookup-forget_cf cf q ((r, v) ∷ m) = ground (arith, lookup-forget_cf cf q m)

pub path_eq_iff : (p q : PatchPath) → path_eq p q ≡ true → p ≡ q
path_eq_iff p q h = ground arith
