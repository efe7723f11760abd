-- ===== src/Store/Mem/Laws.antt =====
-- store/mem.rs: reads over the three buffers, the swap, a failing put.
use z1kv.Common.{
  ℕ, ◌≡◌, ◌≤◌, ◌∙◌, refl, sym, ap, Bool, true, ◌&&◌, Option, none, some, List, [], ◌∷◌, ltb, In,
  In-nil, here, there, ◌⊎◌, Bool-cases, Option-cases, inl, inr, if◌then◌else◌, arith,
}
use mathlib.Core.List.{append-nil}
use z1kv.Common.Map.{Map}
use z1kv.Errors.{ok, err, IoKind, Z1Error}
use z1kv.Mvcc.Filter.{manager_is_row_visible}
use z1kv.Store.Types.{Z1Key, Z1Entry, is_visible_at_commit}
use z1kv.Store.Mem.{
  MemStore, sources, is_candidate, better, best_of, get_visible, swap_and_drain, Logged, log_put,
  put_logged, put,
}
use z1kv.Wal.Record.{Codec}
use z1kv.Wal.Writer.{WalConfig}

-- The strict visibility of a stored entry is the visibility rule of the manager for a row that
-- nothing deletes, on every snapshot.
pub is_visible_at_commit-eq-manager :
    (e : Z1Entry) (snapshot_txn : ℕ) (commits : Map ℕ) (active : List ℕ)
    → is_visible_at_commit e snapshot_txn commits active
      ≡ manager_is_row_visible snapshot_txn e.txn_id none active commits
unfolding is_visible_at_commit manager_is_row_visible
is_visible_at_commit-eq-manager e snapshot_txn commits active = ground arith

module _ (p : Z1Entry → Bool) where
  best_of-le :
      (es : List Z1Entry) (b : Z1Entry)
      → (c : Z1Entry) × (best_of p es (some b) ≡ some c) × (b.txn_id ≤ c.txn_id)
  unfolding best_of better
  best_of-le [] b = (b, refl, omega arith)
  best_of-le (e ∷ es) b = elim (Bool-cases (p e && ltb b.txn_id e.txn_id)) [
    | inl newer ↦
        let (c, found, le) = best_of-le es e in (c, ground (arith, found), ground (arith, le))
    | inr older ↦ let (c, found, le) = best_of-le es b in (c, ground (arith, found), le)
  ]

  best_of_complete :
      (es : List Z1Entry) (best : Option Z1Entry) (e : Z1Entry)
      → In e es
      → p e ≡ true
      → (c : Z1Entry) × (best_of p es best ≡ some c) × (e.txn_id ≤ c.txn_id)
  unfolding best_of better
  best_of_complete [] best e m h = absurd (In-nil m)
  best_of_complete (f ∷ es) best e (there m) h = best_of_complete es _ e m h
  best_of_complete (f ∷ es) none e (here same) h =
      let (c, found, le) = best_of-le es f in
      (c, ground (arith, found, same), ground (arith, le, same))
  best_of_complete (f ∷ es) (some b) e (here same) h = elim (Bool-cases (ltb b.txn_id f.txn_id)) [
    | inl newer ↦
        let (c, found, le) = best_of-le es f in
        (c, ground (arith, found, same), ground (arith, le, same))
    | inr older ↦
        let (c, found, le) = best_of-le es b in
        (c, ground (arith, found, same), ground (arith, le, same))
  ]

  best_of_sound :
      (es : List Z1Entry) (best : Option Z1Entry) (c : Z1Entry)
      → best_of p es best ≡ some c
      → (best ≡ some c) ⊎ ((p c ≡ true) × In c es)
  unfolding best_of
  best_of_sound [] best c h = inl h
  best_of_sound (e ∷ es) best c h =
      elim (best_of_sound es (if p e then (if better e best then some e else best) else best) c h) [
        | inr (holds, m) ↦ inr (holds, there m)
        | inl first ↦ elim (Bool-cases (p e && better e best)) [
          | inl taken ↦ inr (ground arith, here (ground arith))
          | inr kept ↦ inl (ground arith)
        ]
      ]

-- `get_visible` finds the newest visible version: if any of the three buffers holds a version of the
-- key that the snapshot sees, the result is a version of the key out of one of the buffers that the
-- snapshot sees, and no transaction with such a version is later than the result's.
pub get_visible-newest :
    (zk : Z1Key) (snapshot_txn : ℕ) (commits : Map ℕ) (active : List ℕ) (m : MemStore) (e : Z1Entry)
    → In e (sources m)
    → is_candidate zk snapshot_txn commits active e ≡ true
    → (b : Z1Entry) × (get_visible zk snapshot_txn commits active m ≡ some b)
      × In b (sources m)
      × (is_candidate zk snapshot_txn commits active b ≡ true)
      × (e.txn_id ≤ b.txn_id)
unfolding get_visible
get_visible-newest zk snapshot_txn commits active m e at sees =
    let p : Z1Entry → Bool = is_candidate zk snapshot_txn commits active in
    let (b, found, le) = best_of_complete p (sources m) none e at sees in
    elim (best_of_sound p (sources m) none b found) [
      | inl none_before ↦ cc
      | inr (holds, at_b) ↦ (b, found, at_b, holds, le)
    ]

drained : (m : MemStore) → m.cold ≡ [] → m.snapshot ≡ [] → sources (swap_and_drain m).0 ≡ sources m
unfolding swap_and_drain
drained m cold snap = rw (cold, snap) (sym (append-nil m.hot))

-- The swap hides nothing that was written since the last one: after it a read finds what it found
-- before in a store whose previous snapshot is already on disk and whose cold buffer is empty, and
-- the drained entries are those of the hot buffer, which is empty then.
pub swap_and_drain-get_visible :
    (zk : Z1Key) (snapshot_txn : ℕ) (commits : Map ℕ) (active : List ℕ) (m : MemStore)
    → m.cold ≡ []
    → m.snapshot ≡ []
    → (get_visible zk snapshot_txn commits active (swap_and_drain m).0
        ≡ get_visible zk snapshot_txn commits active m)
      × ((swap_and_drain m).1 ≡ m.hot)
      × ((swap_and_drain m).0.hot ≡ [])
unfolding get_visible swap_and_drain
swap_and_drain-get_visible zk snapshot_txn commits active m cold snap = (
  ap (λ (l : List Z1Entry). best_of (is_candidate zk snapshot_txn commits active) l none)
      (drained m cold snap),
  refl,
  refl,
)

module _ (faults : ℕ → Option IoKind) (torn : ℕ → ℕ) (c : Codec) (config : WalConfig) where
  -- The log goes before the memory: whatever the sync level and the faults of the file system, a put
  -- that fails leaves the hot buffer and its size as they were.
  pub put-fails :
      (elapsed : Bool) (e : Z1Entry) (m m' : MemStore) (x : Z1Error)
      → put faults torn c config elapsed e m ≡ (m', err x)
      → (m'.hot ≡ m.hot) × (m'.hot_size_bytes ≡ m.hot_size_bytes)
  unfolding put put_logged
  put-fails elapsed e m m' x h = elim (Option-cases m.wal) [
    | inl no_log ↦ absurd (ground arith)
    | inr (log, attached) ↦
        failed (log_put faults torn c config m.sync_level elapsed m.batch_pending e log)
          (sym (rw (attached, put) refl) ∙ h)
  ]
    where
      failed :
          (l : Logged)
          → put_logged faults torn c config e m l ≡ (m', err x)
          → (m'.hot ≡ m.hot) × (m'.hot_size_bytes ≡ m.hot_size_bytes)
      failed ((log, pending), ok _) k = absurd (cc)
      failed ((log, pending), err y) k = (cc, cc)
