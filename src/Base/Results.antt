-- ===== src/Base/Results.antt =====
-- Fallible store calls: `anyhow::Result`, with one error for each refusal of the code.
use mathlib.Core.Path.{◌≡◌, refl, subst}
use mathlib.Core.Bool.{Bool, true, false}
use mathlib.Core.Option.{Option, none, some}
use native.Mathlib.Omega.{arith}
use codex_background_task_ha.Base.Tests.{if◌then◌else◌}

-- The refusals (`bail!`, `?` on a failed query, a constraint of the schema).
pub data Error : Type 0 where
  -- a primary key or a unique index is violated
  constraint : Error
  -- `query_row` finds no row
  job_not_found task_not_found batch_not_found session_not_found attempt_not_found : Error
  no_open_batch no_remaining_attempts : Error
  job_mismatch thread_mismatch task_attached_elsewhere task_not_unstarted : Error
  job_not_pending task_terminal task_pid_invalid batch_not_open batch_not_head : Error
  batch_not_automatic batch_reserved_for_plugin batch_not_detached : Error
  attempts_exhausted thread_has_active_attempt generation_overflow timestamp_overflow : Error
  unsupported_value must_be_positive must_not_be_empty : Error
  session_bound_elsewhere session_epoch_mismatch session_not_live session_not_attachable : Error
  session_not_eligible session_not_idle session_snapshot_stale session_startup_pinned : Error
  session_no_startup_snapshot session_incapable session_live session_retired : Error
  session_has_active_attempt session_blocked_by_manual_head : Error
  activity_revision_gap capability_revision_gap permission_revision_overflow : Error
  steer_not_implemented no_session no_epoch no_rpc_kind no_deadline no_proof stale_proof : Error
  request_mismatch not_accept_pending not_tracking not_cli_attempt turn_mismatch : Error
  fingerprint_mismatch request_not_found one_selector : Error
  retention_not_future path_not_relative path_not_canonical path_escapes : Error
  deadline_not_elapsed attempt_not_current not_delayed_eligible window_closed : Error

pub data Result {ℓ} (A : Type ℓ) : Type ℓ where
  ok : A → Result A
  err : Error → Result A

infixl 5 ◌>>=◌ ◌>>◌
unfoldable pub ◌>>=◌ {ℓ κ} : {A : Type ℓ} {B : Type κ} → Result A → (A → Result B) → Result B
ok a >>= f = f a
err e >>= f = err e

unfoldable pub ◌>>◌ {ℓ} : {B : Type ℓ} → Result (Unit {0}) → Result B → Result B
unfolding ◌>>=◌
m >> k = m >>= λ _. k

unfoldable pub guard : Bool → Error → Result (Unit {0})
guard true e = ok tt
guard false e = err e

-- A `query_row` that must find its row.
unfoldable pub found {ℓ} : {A : Type ℓ} → Option A → Error → Result A
found none e = err e
found (some a) e = ok a

-- `.is_ok()`.
abbrev pub is_ok {ℓ} : {A : Type ℓ} → Result A → Bool
is_ok (ok a) = true
is_ok (err e) = false

-- Every value that a call returns satisfies `P`.
abbrev pub Post {ℓ κ} : {A : Type ℓ} → Result A → (A → Type κ) → Type (ℓ ⊔ κ)
Post {A} m P = (a : A) → m ≡ ok a → P a

module _ {ℓ κ μ} {A : Type ℓ} {B : Type κ} {P : B → Type μ} where
  pub post_bind :
      (m : Result A) (f : A → Result B) → ((a : A) → m ≡ ok a → Post (f a) P) → Post (m >>= f) P
  unfolding ◌>>=◌
  post_bind (ok a) f k b e = k a refl b e
  post_bind (err x) f k b e = absurd (cc e)

module _ {ℓ κ} {B : Type ℓ} {P : B → Type κ} where
  pub post_seq : (m : Result (Unit {0})) (k : Result B) → (m ≡ ok tt → Post k P) → Post (m >> k) P
  unfolding ◌>>◌
  post_seq (ok tt) k h b e = h refl b e
  post_seq (err x) k h b e = absurd (cc e)

  pub post_guard :
      (t : Bool) (x : Error) (k : Result B) → (t ≡ true → Post k P) → Post (guard t x >> k) P
  unfolding ◌>>◌ guard
  post_guard true x k h b e = h refl b e
  post_guard false x k h b e = absurd (cc e)

pub post_ok {ℓ κ} : {A : Type ℓ} (P : A → Type κ) (a : A) → P a → Post (ok a) P
post_ok P a p b e = subst P (cc e) p

pub post_err {ℓ κ} : {A : Type ℓ} (P : A → Type κ) (x : Error) → Post (err x) P
post_err P x b e = absurd (cc e)

pub guard-true : (t : Bool) (x : Error) → guard t x ≡ ok tt → t ≡ true
unfolding guard
guard-true t x h = ground arith

pub found-some {ℓ} : {A : Type ℓ} (o : Option A) (x : Error) (a : A) → found o x ≡ ok a → o ≡ some a
unfolding found
found-some none x a h = absurd (cc h)
found-some (some b) x a h = cc

pub post_if {ℓ κ} :
    {B : Type ℓ} {P : B → Type κ} (t : Bool) (m k : Result B)
    → (t ≡ true → Post m P)
    → (t ≡ false → Post k P)
    → Post (if t then m else k) P
post_if true m k h g = h refl
post_if false m k h g = g refl

pub post_option {ℓ κ μ} :
    {A : Type ℓ} {B : Type κ} {P : B → Type μ} (o : Option A) (m : Result B) (k : A → Result B)
    → (o ≡ none → Post m P)
    → ((a : A) → o ≡ some a → Post (k a) P)
    → Post (elim o [ none ↦ m | some a ↦ k a ]) P
post_option none m k h g = h refl
post_option (some a) m k h g = g a refl

pub bind_of {ℓ κ} :
    {A : Type ℓ} {B : Type κ} (m : Result A) (f : A → Result B) (a : A) → m ≡ ok a → (m >>= f) ≡ f a
unfolding ◌>>=◌
bind_of m f a h = rw h refl

pub seq_of {ℓ} : {B : Type ℓ} (m : Result (Unit {0})) (k : Result B) → m ≡ ok tt → (m >> k) ≡ k
unfolding ◌>>◌ ◌>>=◌
seq_of m k h = rw h refl

pub err_of {ℓ κ} :
    {A : Type ℓ} {B : Type κ} (m : Result A) (f : A → Result B) {x : Error}
    → m ≡ err x
    → (m >>= f) ≡ err x
unfolding ◌>>=◌
err_of m f h = rw h refl
