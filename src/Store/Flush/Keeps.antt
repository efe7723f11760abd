-- ===== src/Store/Flush/Keeps.antt =====
-- A flush loses no version: what it does not bring to L2 stays in the cache.
use z1kv.Common.{
  ℕ, suc, ◌+◌, ◌≡◌, ◌<◌, refl, sym, ap, subst, List, [], ◌∷◌, length, In, In-nil, here, there,
  arith,
}
use z1kv.Common.Map.{Map}
use z1kv.Errors.{Result, ok, err, Z1Error}
use z1kv.Effects.{continue}
use z1kv.Codec.DiskFormat.{DiskFormat}
use z1kv.Mvcc.Prune.{u64_mod}
use z1kv.Store.Types.{Z1Entry, PatchEntry, Z1PatchFormatV4}
use z1kv.Store.Mem.{swap_and_drain}
use z1kv.Store.RecentFlush.{RecentFlushCache, cache_merge, insert_all}
use z1kv.Store.Disk.{DiskLayer, append_patch}
use z1kv.DurableWriter.{Written}
use z1kv.Store.Disk.Wf.{IsLayer}
use z1kv.Store.Disk.Wf.Steps.{Stored}
use z1kv.Store.Disk.Wf.Append.{Appended, append_patch-Appended}
use z1kv.Store.Flush.{
  FlushEngine, to_patch_entry, next_u64, append_next, append_groups, finish_flush, flush_groups,
  begin_flush, group_by_cf, flush_l1_to_l2,
}
use z1kv.Store.Flush.Grouping.{
  Apart, Versions, In-insert_all_old, In-insert_all_new, Grouped, Grouped-group_by_cf,
}

module _ (f : DiskFormat Z1PatchFormatV4) (write : ℕ → Written) where
  -- What the loop over the groups makes of the engine.
  pub record Moved (s : FlushEngine) (groups : Map (List PatchEntry))
      (out : FlushEngine × Result (Unit {0})) : Type 0 where
    pub layer : IsLayer f out.0.next_patch_id out.0.l2
    pub l1_same : out.0.l1 ≡ s.l1
    pub cache_same : out.0.recent_flush ≡ s.recent_flush
    pub kept : (k : ℕ) (pe : PatchEntry) → Stored f s.l2 k pe → Stored f out.0.l2 k pe
    pub moved :
        out.1 ≡ ok tt → (k : ℕ) (pe : PatchEntry) → Grouped k pe groups → Stored f out.0.l2 k pe

  counted : (n room : ℕ) → n + suc room < u64_mod → next_u64 n ≡ suc n
  counted n room h = omega arith

  module _ (s : FlushEngine) (cf : ℕ) (es : List PatchEntry) (groups : Map (List PatchEntry))
      (fits : next_u64 s.next_patch_id ≡ suc s.next_patch_id) where
    -- The engine behind an append that left the layer `l`.
    abbrev behind : DiskLayer → FlushEngine
    behind l = record s { next_patch_id = next_u64 s.next_patch_id; l2 = l }

    stopped :
        (l : DiskLayer) (x : Z1Error)
        → Appended f s.next_patch_id cf s.l2 es (l, err x)
        → Moved s ((cf, es) ∷ groups) (behind l, err x)
    stopped l x a = record {
      layer = subst (λ n. IsLayer f n l) (sym fits) a.layer;
      l1_same = refl;
      cache_same = refl;
      kept = a.kept;
      moved = λ h k pe g. absurd (cc);
    }

    went_on :
        (l : DiskLayer) (out : FlushEngine × Result (Unit {0}))
        → Appended f s.next_patch_id cf s.l2 es (l, ok tt)
        → Moved (behind l) groups out
        → Moved s ((cf, es) ∷ groups) out
    went_on l out a m = record {
      layer = m.layer;
      l1_same = m.l1_same;
      cache_same = m.cache_same;
      kept = λ k pe t. m.kept k pe (a.kept k pe t);
      moved = here_or_there;
    }
      where
        here_or_there :
            out.1 ≡ ok tt
            → (k : ℕ) (pe : PatchEntry) → Grouped k pe ((cf, es) ∷ groups)
            → Stored f out.0.l2 k pe
        here_or_there h k pe (fs, there at, i) = m.moved h k pe (fs, at, i)
        here_or_there h k pe (fs, here same, i) =
            subst (λ (j : ℕ). Stored f out.0.l2 j pe) (ap (λ (q : ℕ × List PatchEntry). q.0) same)
              (m.kept cf pe (
                a.added refl pe
                  (subst (In pe) (sym (ap (λ (q : ℕ × List PatchEntry). q.1) same)) i)))

  append_groups-Moved :
      (groups : Map (List PatchEntry)) (s : FlushEngine)
      → IsLayer f s.next_patch_id s.l2
      → s.next_patch_id + length groups < u64_mod
      → Moved s groups (append_groups f write groups s)
  unfolding append_groups append_next
  append_groups-Moved [] s w room = record {
    layer = w;
    l1_same = refl;
    cache_same = refl;
    kept = λ k pe m. m;
    moved = λ h k pe (es, at, m). absurd (In-nil at);
  }
  append_groups-Moved ((cf, es) ∷ groups) s w room =
      let fits = counted s.next_patch_id (length groups) room in
      step fits (append_patch f write cf es s.next_patch_id s.l2)
        (append_patch-Appended f s.next_patch_id cf s.l2 w write es)
        (λ l v.
          append_groups-Moved groups (behind s cf es groups fits l)
            (subst (λ n. IsLayer f n l) (sym fits) v) (omega arith))
    where
      step :
          (fits : next_u64 s.next_patch_id ≡ suc s.next_patch_id)
          (out : DiskLayer × Result (Unit {0}))
          → Appended f s.next_patch_id cf s.l2 es out
          → ((l : DiskLayer)
              → IsLayer f (suc s.next_patch_id) l
              → Moved
                  (behind s cf es groups fits l)
                  groups
                  (append_groups f write groups (behind s cf es groups fits l)))
          → Moved s ((cf, es) ∷ groups) (
              continue
                (λ _. append_groups f write groups)
                (behind s cf es groups fits out.0, out.1))
      step fits (l, err x) a ih = stopped s cf es groups fits l x a
      step fits (l, ok tt) a ih =
          went_on s cf es groups fits l
            (append_groups f write groups (behind s cf es groups fits l)) a (ih l a.layer)

  -- Where a version of L1 or of the cache is after a flush.
  abbrev Somewhere : FlushEngine × Result ℕ → Z1Entry → Type 0
  Somewhere (out, ok n) x = Stored f out.l2 x.key.cf (to_patch_entry x)
  Somewhere (out, err e) x = In x out.recent_flush.cache

  -- What a flush makes of the engine.
  pub record Flushed (s : FlushEngine) (out : FlushEngine × Result ℕ) : Type 0 where
    pub layer : IsLayer f out.0.next_patch_id out.0.l2
    pub kept : (k : ℕ) (pe : PatchEntry) → Stored f s.l2 k pe → Stored f out.0.l2 k pe
    pub hot : (x : Z1Entry) → In x s.l1.hot → Somewhere out x
    pub cached : (x : Z1Entry) → In x s.recent_flush.cache → Apart x s.l1.hot → Somewhere out x

  -- A flush keeps the layer well-formed and the versions stored in it, on success and on failure. Each
  -- version of the hot buffer, and each one of the cache that no hot one replaces, is stored in L2 when
  -- the flush succeeds and is in the cache when it fails, if the patch ids do not run out.
  pub flush_l1_to_l2-Flushed :
      (s : FlushEngine)
      → IsLayer f s.next_patch_id s.l2
      → Versions s.l1.hot
      → s.next_patch_id + length (group_by_cf (insert_all s.l1.hot s.recent_flush.cache) [])
        < u64_mod
      → Flushed s (flush_l1_to_l2 f write s)
  unfolding flush_l1_to_l2 flush_groups begin_flush cache_merge swap_and_drain
  flush_l1_to_l2-Flushed s w distinct room =
      split (append_groups f write groups (begin_flush s))
        (append_groups-Moved groups (begin_flush s) w room)
    where
      groups : Map (List PatchEntry)
      groups = group_by_cf (insert_all s.l1.hot s.recent_flush.cache) []

      place :
          (out : FlushEngine × Result (Unit {0}))
          → Moved (begin_flush s) groups out
          → (x : Z1Entry) → In x (insert_all s.l1.hot s.recent_flush.cache)
          → Somewhere (continue (λ _. finish_flush (length groups)) out) x
      place (out, ok t) m x i =
          m.moved refl x.key.cf (to_patch_entry x)
            (Grouped-group_by_cf (insert_all s.l1.hot s.recent_flush.cache) [] x i)
      place (out, err e) m x i = subst (λ (c : RecentFlushCache). In x c.cache) (sym m.cache_same) i

      split :
          (out : FlushEngine × Result (Unit {0}))
          → Moved (begin_flush s) groups out
          → Flushed s (continue (λ _. finish_flush (length groups)) out)
      split (out, ok t) m = record {
        layer = m.layer;
        kept = m.kept;
        hot = λ x i.
            place (out, ok t) m x (In-insert_all_new s.l1.hot s.recent_flush.cache distinct i);
        cached = λ x i apart.
            place (out, ok t) m x (In-insert_all_old s.l1.hot s.recent_flush.cache apart i);
      }
      split (out, err e) m = record {
        layer = m.layer;
        kept = m.kept;
        hot = λ x i.
            place (out, err e) m x (In-insert_all_new s.l1.hot s.recent_flush.cache distinct i);
        cached = λ x i apart.
            place (out, err e) m x (In-insert_all_old s.l1.hot s.recent_flush.cache apart i);
      }
