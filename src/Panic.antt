-- ===== src/Panic.antt =====
-- `helper_abort`, which stops the kernel: a run either goes on with a value or has halted with
-- the message of the call.
pub data Abort : Type 0 where
  region0_malloc_failed : Abort
  pcb_malloc_failed : Abort
  region1_table_failed : Abort
  idle_stack_failed : Abort
  idle_mapping_failed : Abort
  region0_missing : Abort
  idle_missing : Abort
  unhandled_trap : Abort

pub data Outcome {ℓ} (A : Type ℓ) : Type ℓ where
  ok : A → Outcome A
  halted : Abort → Outcome A

infixl 5 ◌>>=◌
abbrev pub ◌>>=◌ {ℓ κ} : {A : Type ℓ} {B : Type κ} → Outcome A → (A → Outcome B) → Outcome B
ok a >>= f = f a
halted e >>= f = halted e
