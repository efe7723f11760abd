-- ===== src/Store/RecentFlush.antt =====
-- store/recent_flush_cache.rs: the entries that a flush has not yet written. The map from
-- `(Z1Key, txn_id)` is the list of its values in the order of their keys. The gate makes a flush or a
-- read of all the layers one step.
use z1kv.Common.{ℕ, ◌+◌, ◌%◌, Bool, List, [], ◌∷◌, retain}
use z1kv.Common.Bytes.{Bytes}
use z1kv.Store.Types.{Z1Entry, key_eq}
use z1kv.Store.Mem.{insert_version}
use z1kv.Mvcc.Prune.{u64_mod}

pub record RecentFlushCache : Type 0 where
  pub cache : List Z1Entry
  pub flush_epoch : ℕ

abbrev pub new_cache : RecentFlushCache
new_cache = record { cache = []; flush_epoch = 0 }

unfoldable pub insert_all : List Z1Entry → List Z1Entry → List Z1Entry
unfolding insert_version
insert_all [] cache = cache
insert_all (e ∷ es) cache = insert_all es (insert_version e cache)

unfoldable pub cache_entries : List Z1Entry → RecentFlushCache → RecentFlushCache
unfolding insert_all
cache_entries entries c = record c { cache = insert_all entries [] }

unfoldable pub cache_merge : List Z1Entry → RecentFlushCache → RecentFlushCache
unfolding insert_all
cache_merge entries c = record c { cache = insert_all entries c.cache }

unfoldable pub get_for_key : ℕ → Bytes → RecentFlushCache → List Z1Entry
unfolding retain
get_for_key cf key c = retain (λ e. key_eq e.key (record { cf = cf; key = key })) c.cache

unfoldable pub get_filtered : (Z1Entry → Bool) → RecentFlushCache → List Z1Entry
unfolding retain
get_filtered filter c = retain filter c.cache

unfoldable pub clear : RecentFlushCache → RecentFlushCache
clear c = record c { cache = [] }

unfoldable pub increment_epoch : RecentFlushCache → RecentFlushCache
increment_epoch c = record c { flush_epoch = (c.flush_epoch + 1) % u64_mod }
