-- ===== src/Store/Gc.antt =====
-- store/gc.rs: the merge of the versions of a column family.
pub mod Chains
pub mod Laws
use z1kv.Common.{
  ℕ, zero, suc, ◌+◌, Bool, true, false, ◌||◌, Option, none, some, List, [], ◌∷◌, ◌++◌, length, ltb,
  leb, ◌==◌, if◌then◌else◌,
}
use z1kv.Common.Bytes.{Bytes, bytes_eq}
use z1kv.Store.Types.{PatchEntry, sort_entries}

pub record GcStats : Type 0 where
  pub scanned : ℕ
  pub retained : ℕ
  pub reclaimed : ℕ

-- What a part of the loop pushes, and what it adds to the counters.
pub record Kept : Type 0 where
  pub entries : List PatchEntry
  pub retained : ℕ
  pub reclaimed : ℕ

-- The inner `while`: the entries from here on that share the key, and those behind them.
unfoldable pub chain_of : Bytes → List PatchEntry → List PatchEntry
chain_of key [] = []
chain_of key (e ∷ es) = let rest = chain_of key es in if bytes_eq e.key key then e ∷ rest else []

unfoldable pub after_chain : Bytes → List PatchEntry → List PatchEntry
after_chain key [] = []
after_chain key (e ∷ es) =
    let rest = after_chain key es in if bytes_eq e.key key then rest else e ∷ es

-- The index of the newest version below the watermark; the loop breaks at the first one that is
-- not below.
unfoldable pub last_before_watermark : ℕ → List PatchEntry → ℕ → Option ℕ → Option ℕ
last_before_watermark w [] k last = last
last_before_watermark w (e ∷ es) k last =
    let rest = last_before_watermark w es (suc k) (some k) in if ltb e.txn_id w then rest else last

unfoldable pub is_index : Option ℕ → ℕ → Bool
is_index none k = false
is_index (some j) k = j == k

unfoldable pub keep_chain : ℕ → Option ℕ → ℕ → List PatchEntry → Kept
unfolding is_index
keep_chain w last k [] = record { entries = []; retained = 0; reclaimed = 0 }
keep_chain w last k (e ∷ es) =
    let rest = keep_chain w last (suc k) es in
    if is_index last k || leb w e.txn_id
    then record rest { entries = e ∷ rest.entries; retained = rest.retained + 1 }
    else record rest { reclaimed = rest.reclaimed + 1 }

-- The outer `while`, a chain in each round. The fuel is the number of entries.
unfoldable pub gc_loop : ℕ → ℕ → List PatchEntry → Kept
unfolding chain_of after_chain last_before_watermark keep_chain
gc_loop zero w es = record { entries = []; retained = 0; reclaimed = 0 }
gc_loop (suc fuel) w [] = record { entries = []; retained = 0; reclaimed = 0 }
gc_loop (suc fuel) w (e ∷ es) =
    let chain = chain_of e.key (e ∷ es) in
    let kept = keep_chain w (last_before_watermark w chain 0 none) 0 chain in
    let rest = gc_loop fuel w (after_chain e.key (e ∷ es)) in
    record {
      entries = kept.entries ++ rest.entries;
      retained = kept.retained + rest.retained;
      reclaimed = kept.reclaimed + rest.reclaimed;
    }

unfoldable pub gc_entries : List PatchEntry → ℕ → List PatchEntry × GcStats
unfolding gc_loop sort_entries
gc_entries entries min_active_begin_ts =
    let kept = gc_loop (length entries) min_active_begin_ts (sort_entries entries) in
    (
      kept.entries,
      record { scanned = length entries; retained = kept.retained; reclaimed = kept.reclaimed },
    )
