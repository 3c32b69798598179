-- ===== src/Storage.antt =====
-- crates/z8run-storage/src/lib.rs: the errors of the storage, and the outcome of a query.
pub mod Vault
pub mod Migration
pub mod Flows
pub mod Executions
use z8run.Base.{ℕ, leb, String, Option, none, some, List, [], ◌∷◌, if◌then◌else◌}
use z8run.Error.{Uuid}

pub data StorageError : Type 0 where
  database : String → StorageError
  flow_not_found : Uuid → StorageError
  user_not_found : String → StorageError
  serialization : String → StorageError
  encryption : String → StorageError
  migration : String → StorageError

-- `Result<T, StorageError>`
pub data StorageResult {ℓ} (A : Type ℓ) : Type ℓ where
  ok : A → StorageResult A
  err : StorageError → StorageResult A

-- The operator `?`: an error ends the function.
infixl 5 ◌>>=◌
abbrev pub ◌>>=◌ {κ μ} :
    {A : Type κ} {B : Type μ} → StorageResult A → (A → StorageResult B) → StorageResult B
err e >>= next = err e
ok a >>= next = next a

-- `From<sqlx::Error>`: whether the database fails a query, and with which text, is a parameter of
-- the operation.
abbrev pub Failure : Type 0
Failure = Option String

abbrev pub query {ℓ} : {A : Type ℓ} → Failure → A → StorageResult A
query none a = ok a
query (some text) a = err (database text)

-- `ORDER BY … DESC`
abbrev pub insert_newest {ℓ} : {A : Type ℓ} → (time : A → ℕ) → A → List A → List A
insert_newest time a [] = a ∷ []
insert_newest time a (b ∷ bs) =
    let rest = insert_newest time a bs in if leb (time b) (time a) then a ∷ b ∷ bs else b ∷ rest

unfoldable pub newest_first {ℓ} : {A : Type ℓ} → (time : A → ℕ) → List A → List A
newest_first time [] = []
newest_first time (a ∷ rest) = insert_newest time a (newest_first time rest)
