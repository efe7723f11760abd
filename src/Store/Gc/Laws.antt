-- ===== src/Store/Gc/Laws.antt =====
-- `gc_entries` of store/gc.rs, and what a reader finds before and after it.
use z1kv.Common.{
  ℕ, ◌+◌, ◌≡◌, ◌≤◌, ◌<◌, ◌∙◌, refl, sym, ap, Bool, true, false, ◌||◌, ◌&&◌, none, some, List, [],
  ◌∷◌, length, ltb, leb, retain, Option-cases, Bool-cases, inl, inr, arith,
}
use z1kv.Common.Bytes.{Bytes, bytes_eq, bytes_eq_iff, bytes_eq_refl, bytes_cmp_refl}
use z1kv.Store.Types.{PatchEntry, entry_le, sort_entries}
use z1kv.Store.Types.Sorting.{
  IsSorted, AllAfter, IsSorted-sort_entries, length-sort_entries, Every, Every-sort_entries, newest,
  of_key, newest-sort_entries,
}
use z1kv.Store.Gc.{gc_entries}
use z1kv.Store.Gc.Chains.{reclaim, head_below, gc_loop-reclaim, gc_loop-counts}

gc_entries-reclaim :
    (es : List PatchEntry) (w : ℕ) → (gc_entries es w).0 ≡ reclaim w (sort_entries es)
unfolding gc_entries
gc_entries-reclaim es w =
    gc_loop-reclaim (length es) w (sort_entries es) (omega (arith, length-sort_entries es))
      (IsSorted-sort_entries es)

-- A reader sees every version below the watermark.
abbrev pub seen_below : ℕ → (ℕ → Bool) → PatchEntry → Bool
seen_below w vis e = leb w e.txn_id || vis e.txn_id

module _ (key : Bytes) (vis : ℕ → Bool) where
  newest-after :
      (e : PatchEntry) (es : List PatchEntry) (b : PatchEntry)
      → AllAfter e es
      → bytes_eq e.key key ≡ true
      → newest (of_key key vis) es ≡ some b
      → e.txn_id ≤ b.txn_id
  unfolding newest of_key entry_le
  newest-after e [] b s same h = ground arith
  newest-after e (f ∷ es) b s same h = ground (
    arith,
    newest-after e es b s.1,
    bytes_eq_iff e.key key,
    bytes_eq_iff f.key key,
    bytes_cmp_refl key,
  )

  newest_head :
      (f : PatchEntry) (es : List PatchEntry)
      → of_key key vis f ≡ true
      → (b : PatchEntry) × (newest (of_key key vis) (f ∷ es) ≡ some b)
  unfolding newest
  newest_head f es h = elim (Option-cases (newest (of_key key vis) es)) [
    | inl gone ↦ (f, ground arith)
    | inr (b, found) ↦ elim (Bool-cases (ltb b.txn_id f.txn_id)) [
      | inl newer ↦ (f, ground arith)
      | inr older ↦ (b, ground arith)
    ]
  ]

  newest_under :
      (e : PatchEntry) (l : List PatchEntry) (b : PatchEntry)
      → newest (of_key key vis) l ≡ some b
      → e.txn_id ≤ b.txn_id
      → newest (of_key key vis) (e ∷ l) ≡ some b
  unfolding newest
  newest_under e l b h le = ground arith

  newest_hidden :
      (e : PatchEntry) (l : List PatchEntry)
      → of_key key vis e ≡ false
      → newest (of_key key vis) (e ∷ l) ≡ newest (of_key key vis) l
  unfolding newest
  newest_hidden e l h = ground arith

  newest_cons :
      (e : PatchEntry) (l m : List PatchEntry)
      → newest (of_key key vis) l ≡ newest (of_key key vis) m
      → newest (of_key key vis) (e ∷ l) ≡ newest (of_key key vis) (e ∷ m)
  unfolding newest
  newest_cons e l m h = rw h

  of_key_next :
      (w : ℕ) (e f : PatchEntry)
      → bytes_eq f.key e.key ≡ true
      → ltb f.txn_id w ≡ true
      → seen_below w vis f ≡ true
      → of_key key vis e ≡ true
      → (of_key key vis f ≡ true) × (bytes_eq e.key key ≡ true)
  unfolding of_key
  of_key_next w e f same below seen shown =
      ground (arith, bytes_eq_iff f.key e.key, bytes_eq_iff f.key key, bytes_eq_iff e.key key)

  -- An entry that the rule reclaims is not the newest that a reader sees.
  newest_skip :
      (w : ℕ) (e f : PatchEntry) (es : List PatchEntry)
      → AllAfter e (f ∷ es)
      → bytes_eq f.key e.key ≡ true
      → ltb f.txn_id w ≡ true
      → seen_below w vis f ≡ true
      → newest (of_key key vis) (e ∷ f ∷ es) ≡ newest (of_key key vis) (f ∷ es)
  newest_skip w e f es s same below seen = elim (Bool-cases (of_key key vis e)) [
    | inr hidden ↦ newest_hidden e (f ∷ es) hidden
    | inl shown ↦
        let (next, here) = of_key_next w e f same below seen shown in
        let (b, found) = newest_head f es next in
        newest_under e (f ∷ es) b found (newest-after e (f ∷ es) b s here found) ∙ sym found
  ]

  newest-reclaim :
      (w : ℕ) (es : List PatchEntry)
      → IsSorted es
      → Every (seen_below w vis) es
      → newest (of_key key vis) (reclaim w es) ≡ newest (of_key key vis) es
  unfolding reclaim head_below
  newest-reclaim w [] s a = refl
  newest-reclaim w (e ∷ []) s a = ground arith
  newest-reclaim w (e ∷ f ∷ es) s a =
      elim (Bool-cases (ltb e.txn_id w && (bytes_eq f.key e.key && ltb f.txn_id w))) [
        | inl goes ↦ rw goes (
            newest-reclaim w (f ∷ es) s.1 a.1
            ∙ sym (newest_skip w e f es s.0 (ground arith) (ground arith) a.1.0))
        | inr stays ↦
            rw stays
              (newest_cons e (reclaim w (f ∷ es)) (f ∷ es) (newest-reclaim w (f ∷ es) s.1 a.1))
      ]

  -- The GC merge is conservative: if a reader sees every version below the watermark, then for
  -- every key it finds the same newest version among the retained entries as among all.
  pub gc_entries-newest :
      (w : ℕ) (es : List PatchEntry)
      → Every (seen_below w vis) es
      → newest (of_key key vis) (gc_entries es w).0 ≡ newest (of_key key vis) es
  gc_entries-newest w es a =
      ap (newest (of_key key vis)) (gc_entries-reclaim es w)
      ∙ newest-reclaim w (sort_entries es) (IsSorted-sort_entries es)
          (Every-sort_entries (seen_below w vis) es a)
      ∙ newest-sort_entries key vis es

-- The statistics add up: every entry scanned is retained or reclaimed, and `retained` counts the
-- entries of the result.
pub gc_entries-stats :
    (es : List PatchEntry) (w : ℕ)
    → ((gc_entries es w).1.scanned ≡ (gc_entries es w).1.retained + (gc_entries es w).1.reclaimed)
      × ((gc_entries es w).1.scanned ≡ length es)
      × ((gc_entries es w).1.retained ≡ length (gc_entries es w).0)
unfolding gc_entries
gc_entries-stats es w =
    let (a, b) =
      gc_loop-counts (length es) w (sort_entries es) (omega (arith, length-sort_entries es)) in
    (omega (arith, length-sort_entries es), refl, a)

retain-reclaim :
    (w : ℕ) (es : List PatchEntry)
    → retain (λ e. leb w e.txn_id) (reclaim w es) ≡ retain (λ e. leb w e.txn_id) es
unfolding reclaim retain
retain-reclaim w [] = refl
retain-reclaim w (e ∷ es) = ground (arith, retain-reclaim w es)

-- No version at or above the watermark is reclaimed, and their order in the result is that of the
-- sorted input.
pub gc_entries-keeps_active :
    (w : ℕ) (es : List PatchEntry)
    → retain (λ e. leb w e.txn_id) (gc_entries es w).0
      ≡ retain (λ e. leb w e.txn_id) (sort_entries es)
gc_entries-keeps_active w es =
    ap (retain (λ e. leb w e.txn_id)) (gc_entries-reclaim es w) ∙ retain-reclaim w (sort_entries es)

-- The GC merge goes by transaction ids and not by visibility: of two versions of a key below the
-- watermark it keeps the later one alone, so if a reader sees only the earlier one (the later
-- transaction was rolled back), the reader finds it before the merge and finds nothing after it.
pub gc_entries-loses_rolled_back :
    (key : Bytes) (vis : ℕ → Bool) (w : ℕ) (old new : PatchEntry)
    → old.key ≡ key
    → new.key ≡ key
    → old.txn_id < new.txn_id
    → new.txn_id < w
    → vis old.txn_id ≡ true
    → vis new.txn_id ≡ false
    → (newest (of_key key vis) (old ∷ new ∷ []) ≡ some old)
      × (newest (of_key key vis) (gc_entries (old ∷ new ∷ []) w).0 ≡ none)
gc_entries-loses_rolled_back key vis w old new ko kn lt below seen hidden =
    let sorted : sort_entries (old ∷ new ∷ []) ≡ old ∷ new ∷ [] =
      unfold sort_entries entry_le in ground (arith, bytes_cmp_refl key) in
    (
      unfold newest of_key in ground (arith, bytes_eq_refl key),
      rw (gc_entries-reclaim (old ∷ new ∷ []) w, sorted)
          (unfold newest of_key reclaim head_below in ground (arith, bytes_eq_refl key)),
    )
