-- ===== src/Store/Flush.antt =====
-- store/flush.rs: the flush of the in-memory store to L2, and the compaction of L2 into L3. Each runs
-- under the gate and is one step. `write` gives the outcome of writing the patch with an id.
pub mod Grouping
pub mod Keeps
pub mod Compacts
use z1kv.Common.{
  ℕ, ◌+◌, ◌%◌, Bool, Option, none, some, List, [], ◌∷◌, ◌++◌, map, length, ltb, leb, ◌==◌,
  if◌then◌else◌,
}
use z1kv.Common.Map.{Map}
use z1kv.Errors.{Result, ok, err, IoKind}
use z1kv.Effects.{Exec, pure, continue, ◌>>=◌, ◌>>◌}
use z1kv.Codec.DiskFormat.{DiskFormat}
use z1kv.Mvcc.Prune.{u64_mod}
use z1kv.Store.Types.{Z1Entry, PatchEntry, Z1PatchFormatV4}
use z1kv.Store.Gc.{GcStats, gc_entries}
use z1kv.Store.Mem.{MemStore, swap_and_drain, should_flush}
use z1kv.Store.RecentFlush.{RecentFlushCache, cache_merge, clear, increment_epoch}
use z1kv.Store.Disk.{DiskLayer, append_patch, all_versions, Removal, drop_cf, list_cfs, patch_ids}
use z1kv.DurableWriter.{Written}
use z1kv.Store.Disk.Paths.{PatchPath}

pub record FlushEngine : Type 0 where
  pub l1 : MemStore
  pub l2 : DiskLayer
  pub l3 : DiskLayer
  pub recent_flush : RecentFlushCache
  pub flush_epoch : ℕ
  pub next_patch_id : ℕ

abbrev pub to_patch_entry : Z1Entry → PatchEntry
to_patch_entry e = record { key = e.key.key; value = e.value; txn_id = e.txn_id }

-- `groups.entry(cf).or_default().push(pe)`, the groups in the order of their column families.
unfoldable pub push_group : ℕ → PatchEntry → Map (List PatchEntry) → Map (List PatchEntry)
push_group cf pe [] = (cf, pe ∷ []) ∷ []
push_group cf pe ((c, es) ∷ groups) =
    let rest = push_group cf pe groups in
    if c == cf
    then (c, es ++ pe ∷ []) ∷ groups
    else if ltb cf c
    then (cf, pe ∷ []) ∷ (c, es) ∷ groups
    else (c, es) ∷ rest

unfoldable pub group_by_cf : List Z1Entry → Map (List PatchEntry) → Map (List PatchEntry)
unfolding push_group
group_by_cf [] groups = groups
group_by_cf (e ∷ es) groups = group_by_cf es (push_group e.key.cf (to_patch_entry e) groups)

-- `fetch_add(1)`
abbrev pub next_u64 : ℕ → ℕ
next_u64 n = (n + 1) % u64_mod

-- A step of L2 or of L3 inside the engine.
abbrev pub on_l2 : {A : Type 0} → Exec DiskLayer A → Exec FlushEngine A
on_l2 m s = (record s { l2 = (m s.l2).0 }, (m s.l2).1)

abbrev pub on_l3 : {A : Type 0} → Exec DiskLayer A → Exec FlushEngine A
on_l3 m s = (record s { l3 = (m s.l3).0 }, (m s.l3).1)

unfoldable pub finish_flush : ℕ → Exec FlushEngine ℕ
unfolding clear increment_epoch
finish_flush groups s = (
  record s {
    recent_flush = increment_epoch (clear s.recent_flush);
    flush_epoch = next_u64 s.flush_epoch;
  },
  ok groups,
)

-- The counts of column families and of entries that a compaction has dealt with.
abbrev pub Counts : Type 0
Counts = ℕ × ℕ

unfoldable pub finish_compact : Counts → Exec FlushEngine Counts
finish_compact (cfs, reclaimed) s = (
  record s { flush_epoch = if ltb 0 cfs then next_u64 s.flush_epoch else s.flush_epoch },
  ok (cfs, reclaimed),
)

-- L1 is swapped, and the cache holds what is to be written.
unfoldable pub begin_flush : FlushEngine → FlushEngine
unfolding swap_and_drain cache_merge
begin_flush s =
    let (l1, swapped) = swap_and_drain s.l1 in
    record s { l1 = l1; recent_flush = cache_merge swapped s.recent_flush }

module _ (f : DiskFormat Z1PatchFormatV4) (write : ℕ → Written) where
  -- `self.next_patch_id.fetch_add(1)`, then `append_patch` with the id.
  unfoldable pub append_next :
      (Exec DiskLayer (Unit {0}) → Exec FlushEngine (Unit {0}))
      → ℕ
      → List PatchEntry
      → Exec FlushEngine (Unit {0})
  unfolding append_patch
  append_next on_layer cf entries s =
      on_layer (append_patch f write cf entries s.next_patch_id)
        (record s { next_patch_id = next_u64 s.next_patch_id })

  -- The loop over the groups stops at the first patch that fails.
  unfoldable pub append_groups : Map (List PatchEntry) → Exec FlushEngine (Unit {0})
  unfolding append_next
  append_groups [] = pure tt
  append_groups ((cf, entries) ∷ groups) = do append_next on_l2 cf entries; append_groups groups

  unfoldable pub flush_groups : Map (List PatchEntry) → Exec FlushEngine ℕ
  unfolding append_groups finish_flush
  flush_groups groups = do append_groups groups; finish_flush (length groups)

  unfoldable pub flush_l1_to_l2 : Exec FlushEngine ℕ
  unfolding begin_flush group_by_cf flush_groups
  flush_l1_to_l2 s =
      let s' = begin_flush s in flush_groups (group_by_cf s'.recent_flush.cache []) s'

  unfoldable pub try_flush : Exec FlushEngine (Option ℕ)
  unfolding should_flush flush_l1_to_l2
  try_flush s =
      if should_flush s.l1 then (flush_l1_to_l2 >>= λ n. pure (some n)) s else (s, ok none)

  module _ (broken : PatchPath → Option IoKind) (removal : ℕ → Removal) where
    -- L3 takes over what the collection retains, then L2 drops the column family.
    unfoldable pub take_over : ℕ → List PatchEntry → Exec FlushEngine (Unit {0})
    unfolding append_next drop_cf
    take_over cf [] = on_l2 (drop_cf (removal cf) cf)
    take_over cf (e ∷ es) = do append_next on_l3 cf (e ∷ es); on_l2 (drop_cf (removal cf) cf)

    unfoldable pub compact_entries : ℕ → ℕ → List Z1Entry → Counts → Exec FlushEngine Counts
    unfolding gc_entries take_over
    compact_entries watermark cf [] counts = pure counts
    compact_entries watermark cf (v ∷ versions) (cfs, reclaimed) =
        let (retained, stats) = gc_entries (map to_patch_entry (v ∷ versions)) watermark in
        do take_over cf retained; pure (cfs + 1, reclaimed + stats.reclaimed)

    unfoldable pub compact_cfs : ℕ → List ℕ → Counts → Exec FlushEngine Counts
    unfolding all_versions compact_entries
    compact_cfs watermark [] counts = pure counts
    compact_cfs watermark (cf ∷ cfs) counts = do
      versions ← on_l2 (all_versions f broken cf)
      counts' ← compact_entries watermark cf versions counts
      compact_cfs watermark cfs counts'

    unfoldable pub compact_l2_to_l3 : ℕ → Exec FlushEngine Counts
    unfolding compact_cfs list_cfs finish_compact
    compact_l2_to_l3 min_active_begin_ts s =
        (compact_cfs min_active_begin_ts (list_cfs s.l2) (0, 0) >>= finish_compact) s

    unfoldable pub patch_count : List ℕ → DiskLayer → ℕ
    unfolding patch_ids
    patch_count [] l = 0
    patch_count (cf ∷ cfs) l = length (patch_ids cf l) + patch_count cfs l

    unfoldable pub try_compact :
        (min_active_begin_ts l2_patch_threshold : ℕ) → Exec FlushEngine (Option Counts)
    unfolding patch_count list_cfs compact_l2_to_l3
    try_compact min_active_begin_ts l2_patch_threshold s =
        if leb l2_patch_threshold (patch_count (list_cfs s.l2) s.l2)
        then (compact_l2_to_l3 min_active_begin_ts >>= λ counts. pure (some counts)) s
        else (s, ok none)
