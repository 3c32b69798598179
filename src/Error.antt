-- ===== src/Error.antt =====
-- crates/z8run-core/src/error.rs: the errors of the engine.
use z8run.Base.{ℕ, String, Option, none, some}

-- A `Uuid`, of which the code uses only equality.
abbrev pub Uuid : Type 0
Uuid = ℕ

-- `Serialization` wraps an error of `serde_json`, carried as its text.
pub data Z8Error : Type 0 where
  cycle_detected : (flow_id : Uuid) → Z8Error
  node_not_found : (flow_id node_id : Uuid) → Z8Error
  port_not_found : (node_id : Uuid) (port : String) → Z8Error
  type_mismatch : (from_port from_type to_port to_type : String) → Z8Error
  invalid_edge : (source target : Uuid) → Z8Error
  node_timeout : (node_id : Uuid) (timeout_ms : ℕ) → Z8Error
  node_execution : (node_id : Uuid) (message : String) → Z8Error
  flow_not_runnable : (flow_id : Uuid) (status : String) → Z8Error
  channel_closed : (node_id : Uuid) → Z8Error
  invalid_config : (node_id : Uuid) (reason : String) → Z8Error
  internal : String → Z8Error
  serialization : String → Z8Error

-- `Z8Result<T>`
pub data Z8Result {ℓ} (A : Type ℓ) : Type ℓ where
  ok : A → Z8Result A
  err : Z8Error → Z8Result A

-- The operator `?`: an error ends the function.
infixl 5 ◌>>=◌
abbrev pub ◌>>=◌ {κ μ} : {A : Type κ} {B : Type μ} → Z8Result A → (A → Z8Result B) → Z8Result B
err e >>= next = err e
ok a >>= next = next a

-- `Option::ok_or`
abbrev pub ok_or {ℓ} : {A : Type ℓ} → Z8Error → Option A → Z8Result A
ok_or e none = err e
ok_or e (some a) = ok a
