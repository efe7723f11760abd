-- ===== src/Store/Gc/Chains.antt =====
-- The loop of `gc_entries` against a rule for one entry and its successor.
use z1kv.Common.{
  ℕ, zero, suc, ◌+◌, ◌≡◌, ◌≤◌, ◌<◌, refl, ap, Bool, false, ◌&&◌, Option, none, some, List, [], ◌∷◌,
  ◌++◌, length, ltb, ==_refl, length-append, Option-cases, Bool-cases, inl, inr, if◌then◌else◌,
  arith,
}
use z1kv.Common.Bytes.{Bytes, bytes_eq, bytes_eq_iff, bytes_eq_refl, bytes_cmp_refl}
use z1kv.Store.Types.{PatchEntry, entry_le}
use z1kv.Store.Types.Sorting.{IsSorted}
use z1kv.Store.Gc.{chain_of, after_chain, last_before_watermark, is_index, keep_chain, gc_loop}

-- Is the first entry a version of the key below the watermark?
unfoldable pub head_below : ℕ → Bytes → List PatchEntry → Bool
head_below w key [] = false
head_below w key (f ∷ es) = bytes_eq f.key key && ltb f.txn_id w

-- The rule: an entry goes if it is below the watermark and the next entry is a version of the same
-- key below the watermark too.
unfoldable pub reclaim : ℕ → List PatchEntry → List PatchEntry
unfolding head_below
reclaim w [] = []
reclaim w (e ∷ es) =
    let rest = reclaim w es in if ltb e.txn_id w && head_below w e.key es then rest else e ∷ rest

chain-append : (key : Bytes) (es : List PatchEntry) → chain_of key es ++ after_chain key es ≡ es
unfolding chain_of after_chain
chain-append key [] = refl
chain-append key (e ∷ es) = ground (arith, chain-append key es)

length-after_chain : (key : Bytes) (es : List PatchEntry) → length (after_chain key es) ≤ length es
unfolding after_chain
length-after_chain key [] = omega arith
length-after_chain key (e ∷ es) = ground (arith, length-after_chain key es)

length-after_chain_self :
    (e : PatchEntry) (es : List PatchEntry) → length (after_chain e.key (e ∷ es)) ≤ length es
unfolding after_chain
length-after_chain_self e es = ground (arith, length-after_chain e.key es, bytes_eq_refl e.key)

-- One key, from old to new.
IsChain : Bytes → List PatchEntry → Type 0
IsChain key [] = Unit
IsChain key (e ∷ []) = e.key ≡ key
IsChain key (e ∷ f ∷ es) = (e.key ≡ key) × (e.txn_id ≤ f.txn_id) × IsChain key (f ∷ es)

-- The scan finds an index that is not before its start, or returns what it was given.
last_before-ge :
    (w : ℕ) (es : List PatchEntry) (k j : ℕ)
    → last_before_watermark w es (suc k) (some k) ≡ some j
    → k ≤ j
unfolding last_before_watermark
last_before-ge w [] k j h = ground arith
last_before-ge w (e ∷ es) k j h = ground (arith, last_before-ge w es (suc k) j)

is_index-later :
    (w : ℕ) (es : List PatchEntry) (k j : ℕ)
    → k < j
    → is_index (last_before_watermark w es (suc j) (some j)) k ≡ false
unfolding is_index
is_index-later w es k j lt = elim (Option-cases (last_before_watermark w es (suc j) (some j))) [
  | inl gone ↦ rw gone
  | inr (i, found) ↦ rw found (ground (arith, last_before-ge w es j i found))
]

-- Nothing of a chain that begins at the watermark goes.
keep_chain_above :
    (w : ℕ) (last : Option ℕ) (k : ℕ) (key : Bytes) (e : PatchEntry) (es : List PatchEntry)
    → IsChain key (e ∷ es)
    → w ≤ e.txn_id
    → ((keep_chain w last k (e ∷ es)).entries ≡ e ∷ es) × (reclaim w (e ∷ es) ≡ e ∷ es)
unfolding keep_chain reclaim IsChain
keep_chain_above w last k key e [] c h = (ground arith, ground arith)
keep_chain_above w last k key e (f ∷ es) c h =
    let (kept, same) = keep_chain_above w last (suc k) key f es c.2 (omega arith) in
    (ground (arith, kept), ground (arith, same))

-- On a chain the two loops over it follow the rule.
keep_chain-reclaim :
    (w k : ℕ) (key : Bytes) (es : List PatchEntry)
    → IsChain key es
    → (keep_chain w (last_before_watermark w es k none) k es).entries ≡ reclaim w es
unfolding keep_chain reclaim last_before_watermark is_index head_below IsChain
keep_chain-reclaim w k key [] c = refl
keep_chain-reclaim w k key (e ∷ []) c = ground (arith, ==_refl k)
keep_chain-reclaim w k key (e ∷ f ∷ es) c = elim (Bool-cases (ltb e.txn_id w)) [
  | inr above ↦
      let (kept, same) = keep_chain_above w none (suc k) key f es c.2 (ground arith) in
      ground (arith, kept, same)
  | inl below ↦ elim (Bool-cases (ltb f.txn_id w)) [
    | inl both ↦ ground (
      arith,
      is_index-later w es k (suc k),
      keep_chain-reclaim w (suc k) key (f ∷ es) c.2,
      bytes_eq_iff f.key e.key,
    )
    | inr one ↦
        let (kept, same) = keep_chain_above w (some k) (suc k) key f es c.2 (ground arith) in
        ground (arith, kept, same, ==_refl k)
  ]
]

-- The list does not begin with the key.
HeadNot : Bytes → List PatchEntry → Type 0
HeadNot key [] = Unit
HeadNot key (e ∷ es) = bytes_eq e.key key ≡ false

HeadNot-after_chain : (key : Bytes) (es : List PatchEntry) → HeadNot key (after_chain key es)
unfolding HeadNot after_chain
HeadNot-after_chain key [] = tt
HeadNot-after_chain key (e ∷ es) = ground (arith, HeadNot-after_chain key es)

IsChain-chain_of :
    (key : Bytes) (es : List PatchEntry) → IsSorted es → IsChain key (chain_of key es)
unfolding IsChain chain_of entry_le
IsChain-chain_of key [] s = tt
IsChain-chain_of key (e ∷ []) s = ground (arith, bytes_eq_iff e.key key)
IsChain-chain_of key (e ∷ f ∷ es) s = ground (
  arith,
  IsChain-chain_of key (f ∷ es) s.1,
  bytes_eq_iff e.key key,
  bytes_eq_iff f.key key,
  bytes_cmp_refl key,
)

reclaim-append :
    (w : ℕ) (key : Bytes) (chain rest : List PatchEntry)
    → IsChain key chain
    → HeadNot key rest
    → reclaim w (chain ++ rest) ≡ reclaim w chain ++ reclaim w rest
unfolding reclaim head_below IsChain HeadNot
reclaim-append w key [] rest c h = refl
reclaim-append w key (e ∷ []) [] c h = ground arith
reclaim-append w key (e ∷ []) (f ∷ rest) c h = ground arith
reclaim-append w key (e ∷ f ∷ es) rest c h =
    ground (arith, reclaim-append w key (f ∷ es) rest c.2 h)

IsSorted-after_chain :
    (key : Bytes) (es : List PatchEntry) → IsSorted es → IsSorted (after_chain key es)
unfolding after_chain
IsSorted-after_chain key [] s = tt
IsSorted-after_chain key (e ∷ es) s = ground (arith, IsSorted-after_chain key es)

-- With enough fuel the loop over a sorted list follows the rule.
pub gc_loop-reclaim :
    (fuel w : ℕ) (es : List PatchEntry)
    → length es ≤ fuel
    → IsSorted es
    → (gc_loop fuel w es).entries ≡ reclaim w es
unfolding gc_loop reclaim
gc_loop-reclaim zero w [] h s = refl
gc_loop-reclaim zero w (e ∷ es) h s = absurd (omega arith)
gc_loop-reclaim (suc fuel) w [] h s = refl
gc_loop-reclaim (suc fuel) w (e ∷ es) h s =
    let chain : List PatchEntry = chain_of e.key (e ∷ es) in
    let rest : List PatchEntry = after_chain e.key (e ∷ es) in
    let c : IsChain e.key chain = IsChain-chain_of e.key (e ∷ es) s in
    rw (
      keep_chain-reclaim w 0 e.key chain c,
      gc_loop-reclaim fuel w rest (omega (arith, length-after_chain_self e es))
          (IsSorted-after_chain e.key (e ∷ es) s),
      ← reclaim-append w e.key chain rest c (HeadNot-after_chain e.key (e ∷ es)),
      chain-append e.key (e ∷ es),
    )

-- The counters of a part of the loop are right.
keep_chain-counts :
    (w k : ℕ) (last : Option ℕ) (es : List PatchEntry)
    → ((keep_chain w last k es).retained ≡ length (keep_chain w last k es).entries)
      × ((keep_chain w last k es).retained + (keep_chain w last k es).reclaimed ≡ length es)
unfolding keep_chain
keep_chain-counts w k last [] = (refl, refl)
keep_chain-counts w k last (e ∷ es) = ground (arith, keep_chain-counts w (suc k) last es)

pub gc_loop-counts :
    (fuel w : ℕ) (es : List PatchEntry)
    → length es ≤ fuel
    → ((gc_loop fuel w es).retained ≡ length (gc_loop fuel w es).entries)
      × ((gc_loop fuel w es).retained + (gc_loop fuel w es).reclaimed ≡ length es)
unfolding gc_loop
gc_loop-counts zero w [] h = (refl, refl)
gc_loop-counts zero w (e ∷ es) h = absurd (omega arith)
gc_loop-counts (suc fuel) w [] h = (refl, refl)
gc_loop-counts (suc fuel) w (e ∷ es) h =
    let chain : List PatchEntry = chain_of e.key (e ∷ es) in
    let rest : List PatchEntry = after_chain e.key (e ∷ es) in
    let last : Option ℕ = last_before_watermark w chain 0 none in
    let (a, b) = keep_chain-counts w 0 last chain in
    let (c, d) = gc_loop-counts fuel w rest (omega (arith, length-after_chain_self e es)) in
    (
      omega (
        arith,
        length-append {0} (keep_chain w last 0 chain).entries (gc_loop fuel w rest).entries,
        a,
        c,
      ),
      omega (arith, length-append {0} chain rest, ap length (chain-append e.key (e ∷ es)), b, d),
    )
