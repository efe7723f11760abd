-- ===== src/Errors.antt =====
-- error.rs and the decision of metrics.rs: errors as values, their severity, and what strict mode
-- makes of a degraded error. The texts of messages are left out; where code or a reader tells
-- errors apart by the text, the text is a constructor.
use text.Mathlib.Text.{◌==◌ as str_eq}
use Prim.Native.String.{String}
use z1kv.Common.{Option, none, some, ◌≡◌, refl, ℕ, Bool, true, false, List, [], ◌∷◌, any, not}

-- `std::io::ErrorKind`, as far as the code looks at it.
pub data IoKind : Type 0 where
  already_exists permission_denied not_found unexpected_eof other : IoKind

-- What `MvccConflict` says.
pub data Conflict : Type 0 where
  already_active already_committed not_active : ℕ → Conflict
  ssi : (txn_id conflicting_txn : ℕ) (read_write write_write : Bool) → Conflict

-- What `Serialization` and `Deserialize` say.
pub data Fault : Type 0 where
  encode_failed payload_too_large record_too_large : Fault
  too_short magic_mismatch unsupported_version truncated crc_mismatch decode_failed : Fault
  truncated_header truncated_payload length_over_limit : Fault

pub data Z1Error : Type 0 where
  io : IoKind → Z1Error
  serialization deserialize : Fault → Z1Error
  internal wal : Z1Error
  mvcc_conflict : Conflict → Z1Error
  txn_not_found : ℕ → Z1Error
  degraded : (metric : String) → Z1Error

pub data Result {ℓ} (A : Type ℓ) : Type ℓ where
  ok : A → Result A
  err : Z1Error → Result A

-- A call of the file system in front of the rest: an error of it ends the method.
abbrev pub checked {ℓ} : {A : Type ℓ} → Option IoKind → Result A → Result A
checked none rest = rest
checked (some kind) rest = err (io kind)

infixl 5 ◌>>=◌
abbrev pub ◌>>=◌ {ℓ κ} : {A : Type ℓ} {B : Type κ} → Result A → (A → Result B) → Result B
err failure >>= next = err failure
ok value >>= next = next value

-- A chain that succeeds has succeeded at its first step.
pub >>=-eq-ok {ℓ κ} :
    {A : Type ℓ} {B : Type κ} (first : Result A) (next : A → Result B) {y : B}
    → (first >>= next) ≡ ok y
    → (x : A) × (first ≡ ok x) × (next x ≡ ok y)
>>=-eq-ok (err failure) next e = cc
>>=-eq-ok (ok x) next e = (x, refl, e)

abbrev pub is_ok {ℓ} : {A : Type ℓ} → Result A → Bool
is_ok (ok a) = true
is_ok (err e) = false

pub data Severity : Type 0 where
  fatal : Severity
  degrade : (metric : String) (recoverable : Bool) → Severity
  warn : (metric : String) → Severity

unfoldable pub with_strict_mode : Severity → Bool → Severity
with_strict_mode (degrade metric recoverable) true = fatal
with_strict_mode s strict = s

abbrev unrecoverable_metrics : List String
unrecoverable_metrics =
    "vis_data_unavailable" ∷ "wal_record_corrupt" ∷ "version_chain_broken" ∷ "gc_snapshot_violation"
    ∷ []

unfoldable pub severity : Z1Error → Severity
unfolding any
severity (degraded metric) = degrade metric (not (any (λ m. str_eq m metric) unrecoverable_metrics))
severity _ = fatal

-- `handle_degrade(err, strict).is_break()`: the counters of metrics.rs are left out.
unfoldable pub handle_degrade : Z1Error → Bool → Bool
unfolding severity with_strict_mode
handle_degrade e strict = elim (with_strict_mode (severity e) strict) [ fatal ↦ true | _ ↦ false ]
