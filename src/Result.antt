-- ===== src/Result.antt =====
-- Exceptions as values: what the job store and the lifecycle raise.
use generic_coding_agent.Prelude.{String, ◌≡◌, some}
use generic_coding_agent.Jobs.Models.{JobStatus}

pub data Error : Type 0 where
  value_error : String → Error
  not_found : Error
  concurrency : Error
  idempotency_conflict : Error
  create_failed : Error
  not_acknowledged : JobStatus → Error
  invalid_transition : JobStatus → JobStatus → Error

pub data Result {ℓ} (A : Type ℓ) : Type ℓ where
  ok : A → Result A
  err : Error → Result A

pub ok-injective : {A : Type 0} {a b : A} → ok a ≡ ok b → a ≡ b
ok-injective h = cc

pub ok≢err : {A : Type 0} {a : A} {e : Error} → ok a ≡ err e → ⊥
ok≢err h = cc

pub ok_some-injective : {A : Type 0} {a b : A} → ok (some a) ≡ ok (some b) → a ≡ b
ok_some-injective h = cc
