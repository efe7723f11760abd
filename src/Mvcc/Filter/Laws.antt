-- ===== src/Mvcc/Filter/Laws.antt =====
-- Rules 1 to 4 of `VisFilter` as a predicate, and the two implementations of the filter.
use z1kv.Common.{
  ℕ, ◌≤◌, ◌≡◌, ◌↔◌, refl, true, false, Option, none, some, List, leb, Bool-cases, Option-cases, inl,
  inr, arith,
}
use z1kv.Common.Map.{Map, get, contains_key-get}
use z1kv.Mvcc.Types.{contains}
use z1kv.Mvcc.Filter.{deleted_before, snapshot_is_row_visible, manager_is_row_visible}

-- The deleting transaction, if there is one, is active or has no commit at or before the snapshot.
abbrev pub NotDeleted : ℕ → Option ℕ → List ℕ → Map ℕ → Type 0
NotDeleted snapshot_id none active map = Unit
NotDeleted snapshot_id (some del) active map =
    contains del active ≡ false → (ts : ℕ) → get del map ≡ some ts → ¬ (ts ≤ snapshot_id)

pub record Visible (snapshot_id created : ℕ) (deleted : Option ℕ) (active : List ℕ) (map : Map ℕ)
    : Type 0 where
  pub not_future : created ≤ snapshot_id
  pub not_active : contains created active ≡ false
  pub commit_ts : ℕ
  pub has_commit : get created map ≡ some commit_ts
  pub in_snapshot : commit_ts ≤ snapshot_id
  pub not_deleted : NotDeleted snapshot_id deleted active map

gt→leb : (a b : ℕ) → ¬ (a ≤ b) → leb a b ≡ false
gt→leb a b h = ground arith

module _ (sid created : ℕ) (active : List ℕ) (map : Map ℕ) where
  NotDeleted-sound :
      (deleted : Option ℕ)
      → deleted_before sid deleted active map ≡ false
      → NotDeleted sid deleted active map
  unfolding deleted_before
  NotDeleted-sound none h = tt
  NotDeleted-sound (some del) h = λ idle ts e. ground arith

  NotDeleted-complete :
      (deleted : Option ℕ)
      → NotDeleted sid deleted active map
      → deleted_before sid deleted active map ≡ false
  unfolding deleted_before
  NotDeleted-complete none h = refl
  NotDeleted-complete (some del) h = elim (Bool-cases (contains del active)) [
    | inl busy ↦ rw busy
    | inr idle ↦ elim (Option-cases (get del map)) [
      | inl gone ↦ rw (idle, gone)
      | inr (ts, found) ↦ rw (idle, found) (gt→leb ts sid (h idle ts found))
    ]
  ]

  -- The manager shows a row exactly when its creator is no future transaction, is not active, has a
  -- commit in the map with a timestamp at or before the snapshot (an absent one hides the row), and
  -- no deleting transaction that has finished is committed at or before the snapshot.
  pub manager-Visible_iff :
      (deleted : Option ℕ)
      → (manager_is_row_visible sid created deleted active map ≡ true)
        ↔ Visible sid created deleted active map
  unfolding manager_is_row_visible
  manager-Visible_iff deleted = (to deleted, from deleted)
    where
      to :
          (deleted : Option ℕ)
          → manager_is_row_visible sid created deleted active map ≡ true
          → Visible sid created deleted active map
      to deleted h = elim (Option-cases (get created map)) [
        | inl gone ↦ absurd (ground arith)
        | inr (ts, found) ↦ record {
          not_future = ground arith;
          not_active = ground arith;
          commit_ts = ts;
          has_commit = found;
          in_snapshot = ground arith;
          not_deleted = NotDeleted-sound deleted (ground arith);
        }
      ]

      from :
          (deleted : Option ℕ)
          → Visible sid created deleted active map
          → manager_is_row_visible sid created deleted active map ≡ true
      from deleted v = ground (arith, NotDeleted-complete deleted v.not_deleted)

  -- On every row, snapshot and commit map the filter of a snapshot and the filter of the manager
  -- give the same answer.
  pub manager-eq-snapshot :
      (deleted : Option ℕ)
      → manager_is_row_visible sid created deleted active map
        ≡ snapshot_is_row_visible sid created deleted active map
  unfolding manager_is_row_visible snapshot_is_row_visible
  manager-eq-snapshot deleted = ground (arith, contains_key-get created map)
