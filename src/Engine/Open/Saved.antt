-- ===== src/Engine/Open/Saved.antt =====
-- Checkpoints that an opening can start from.
use z1kv.Common.{
  ℕ, ◌-◌, ◌^◌, ◌≡◌, ◌≤◌, ◌<◌, ◌∙◌, refl, sym, subst, none, some, [], ◌∷◌, inl, inr, Option-cases,
  arith,
}
use mathlib.Core.Option.{some-injective}
use z1kv.Common.Map.{Map, get, Distinct, contains_key-get}
use z1kv.Mvcc.Types.{VisibilityManager}
use z1kv.Mvcc.Prune.{u64_mod}
use z1kv.Mvcc.Manager.Wf.{Wf}
use z1kv.DurableWriter.{Written}
use z1kv.Wal.Checkpoint.{CheckpointState, CheckpointDir, StateCodec, write, load_latest}
use z1kv.Wal.Checkpoint.Laws.{write-Checkpointed}
use z1kv.Engine.{Engine}
use z1kv.Engine.Transactions.{history_entries}
use z1kv.Engine.Run.Sound.{Sound}

-- A state lists each transaction once and none past its own id, which is not the last one.
pub record FitsState (s : CheckpointState) : Type 0 where
  pub distinct : Distinct s.committed_history
  pub history_le : (k v : ℕ) → get k s.committed_history ≡ some v → k ≤ s.committed_txn
  pub room : s.committed_txn < u64_mod - 1

abbrev pub Fits : StateCodec → CheckpointDir → Type 0
Fits c d = (s : CheckpointState) → load_latest c d ≡ some s → FitsState s

pub get-history_entries :
    (k : ℕ) (h : Map (ℕ × ℕ))
    → get k (history_entries h) ≡ (elim (get k h) [ none ↦ none | some v ↦ some v.0 ])
unfolding history_entries get
get-history_entries k [] = refl
get-history_entries k ((j, v) ∷ h) = ground (arith, get-history_entries k h)

Distinct-history_entries : (h : Map (ℕ × ℕ)) → Distinct h → Distinct (history_entries h)
unfolding history_entries
Distinct-history_entries [] d = tt
Distinct-history_entries ((j, v) ∷ h) d = (
  ground (
    arith,
    d.0,
    contains_key-get j h,
    contains_key-get j (history_entries h),
    get-history_entries j h,
  ),
  Distinct-history_entries h d.1,
)

abbrev pub saved_state : ℕ → Engine → CheckpointState
saved_state now_ms e = record {
  checkpoint_id = e.mvcc.committed_txn;
  committed_txn = e.mvcc.committed_txn;
  timestamp_ms = now_ms;
  committed_history = history_entries e.mvcc.committed_history;
}

listed-le :
    (vm : VisibilityManager)
    → Wf vm
    → (k v : ℕ) → get k (history_entries vm.committed_history) ≡ some v
    → k ≤ vm.committed_txn
listed-le vm w k v h = elim (Option-cases (get k vm.committed_history)) [
  | inl gone ↦ absurd (cc (h, get-history_entries k vm.committed_history, gone))
  | inr (u, found) ↦ w.history_le k u found
]

pub saved_state-FitsState : (now_ms : ℕ) (e : Engine) → Sound e → FitsState (saved_state now_ms e)
saved_state-FitsState now_ms e s = record {
  distinct = Distinct-history_entries e.mvcc.committed_history s.below.wf.distinct_history;
  history_le = listed-le e.mvcc s.below.wf;
  room = omega (arith, s.below.ahead, s.counter_u64);
}

module _ (c : StateCodec) where
  pub write-Fits :
      (state : CheckpointState) (file pointer : Written) (d : CheckpointDir)
      → FitsState state
      → state.checkpoint_id < 2 ^ 64
      → Fits c d
      → Fits c (write c file pointer state d).0
  write-Fits state file pointer d fit small fits s h =
      elim (write-Checkpointed c state file pointer d small).either [
        | inl old ↦ fits s (sym old ∙ h)
        | inr new ↦ subst FitsState (some-injective _ _ (sym new ∙ h)) fit
      ]
