-- ===== src/ResourceManager.antt =====
-- src/resource/resource.c: the limits on resources and the usage they are checked against. A usage of
-- type `int` is its 32-bit pattern; `int` to `unsigned long long` extends the sign, and the
-- assignment back keeps the low 32 bits. The array of 64 limits is the list of those in use, whose
-- length is `limit_count`. Outside, `none` is the overflow of an `int`.
pub mod Limits
mod Examples
use micro_meow_db.Prelude.{
  ℕ, ◌+◌, ◌-◌, ◌*◌, ◌%◌, ◌^◌, Bool, true, false, ◌&&◌, ◌||◌, Option, none, some, List, [], ◌∷◌,
  ◌++◌, length, ltb, leb, ◌==◌, if◌then◌else◌, ◌>>=◌,
}

-- the results that the functions return
pub data Status : Type 0 where
  success limit_exceeded invalid_parameter : Status

pub data LimitType : Type 0 where
  hard soft : LimitType

pub data ResourceType : Type 0 where
  memory connection query transaction disk cpu : ResourceType
  -- any other number
  unknown : ℕ → ResourceType

-- the number of a type
unfoldable pub number : ResourceType → ℕ
number memory = 1
number connection = 2
number query = 3
number transaction = 4
number disk = 5
number cpu = 6
number (unknown n) = n

pub record ResourceLimit : Type 0 where
  pub resource_type : ResourceType
  pub limit_type : LimitType
  pub value : ℕ
  pub current_usage : ℕ

pub record ResourceManager : Type 0 where
  pub limits : List ResourceLimit
  pub total_memory_usage : ℕ
  pub total_connections : ℕ
  pub total_queries : ℕ
  pub total_transactions : ℕ
  pub disk_usage : ℕ
  pub cpu_usage_percent : ℕ

-- an `int` as an `unsigned long long`
unfoldable pub extend : ℕ → ℕ
extend n = if ltb n (2 ^ 31) then n else n + 2 ^ 64 - 2 ^ 32

-- the usage of a type as the sums have it
unfoldable pub usage_of : ResourceManager → ResourceType → Option ℕ
usage_of rm memory = some rm.total_memory_usage
usage_of rm connection = some (extend rm.total_connections)
usage_of rm query = some (extend rm.total_queries)
usage_of rm transaction = some (extend rm.total_transactions)
usage_of rm disk = some rm.disk_usage
usage_of rm cpu = some (extend rm.cpu_usage_percent)
usage_of rm (unknown n) = none

unfoldable pub resource_manager_add_limit :
    ResourceManager → ResourceType → LimitType → ℕ → ResourceManager × Status
resource_manager_add_limit rm resource_type limit_type value =
    if leb 64 (length rm.limits) then (rm, limit_exceeded) else (
      record rm {
        limits =
            rm.limits
            ++ record {
              resource_type = resource_type;
              limit_type = limit_type;
              value = value;
              current_usage = 0;
            }
              ∷ [];
      },
      success,
    )

unfoldable pub is_hard : LimitType → Bool
is_hard hard = true
is_hard soft = false

-- The loop over the limits. A soft limit is only logged.
unfoldable pub check_limits : Option ℕ → List ResourceLimit → ResourceType → ℕ → Status
check_limits total [] resource_type usage = success
check_limits total (l ∷ ls) resource_type usage =
    let rest = check_limits total ls resource_type usage in
    if number l.resource_type == number resource_type
    then (elim total [
      | none ↦ invalid_parameter
      | some used ↦
          if is_hard l.limit_type && ltb l.value ((used + usage) % 2 ^ 64)
          then limit_exceeded
          else rest
    ])
    else rest

unfoldable pub resource_manager_check_limit : ResourceManager → ResourceType → ℕ → Status
resource_manager_check_limit rm resource_type usage =
    check_limits (usage_of rm resource_type) rm.limits resource_type usage

-- an `int` after `+=` with an `unsigned long long`
unfoldable pub add_int : ℕ → ℕ → ℕ
add_int n delta = (extend n + delta) % 2 ^ 32

unfoldable pub resource_manager_update_usage :
    ResourceManager → ResourceType → ℕ → ResourceManager × Status
resource_manager_update_usage rm memory delta =
    (record rm { total_memory_usage = (rm.total_memory_usage + delta) % 2 ^ 64 }, success)
resource_manager_update_usage rm connection delta =
    (record rm { total_connections = add_int rm.total_connections delta }, success)
resource_manager_update_usage rm query delta =
    (record rm { total_queries = add_int rm.total_queries delta }, success)
resource_manager_update_usage rm transaction delta =
    (record rm { total_transactions = add_int rm.total_transactions delta }, success)
resource_manager_update_usage rm disk delta =
    (record rm { disk_usage = (rm.disk_usage + delta) % 2 ^ 64 }, success)
resource_manager_update_usage rm cpu delta =
    (record rm { cpu_usage_percent = add_int rm.cpu_usage_percent delta }, success)
resource_manager_update_usage rm (unknown n) delta = (rm, invalid_parameter)

unfoldable pub resource_manager_get_memory_usage : ResourceManager → ℕ
resource_manager_get_memory_usage rm = rm.total_memory_usage

unfoldable pub resource_manager_get_connection_count : ResourceManager → ℕ
resource_manager_get_connection_count rm = rm.total_connections

unfoldable pub resource_manager_get_query_count : ResourceManager → ℕ
resource_manager_get_query_count rm = rm.total_queries

unfoldable pub resource_manager_get_transaction_count : ResourceManager → ℕ
resource_manager_get_transaction_count rm = rm.total_transactions

unfoldable pub resource_manager_get_disk_usage : ResourceManager → ℕ
resource_manager_get_disk_usage rm = rm.disk_usage

unfoldable pub resource_manager_get_cpu_usage : ResourceManager → ℕ
resource_manager_get_cpu_usage rm = rm.cpu_usage_percent

-- the six settings, or their defaults, none of them negative
pub record Settings : Type 0 where
  pub memory_limit : ℕ
  pub connection_limit : ℕ
  pub query_limit : ℕ
  pub transaction_limit : ℕ
  pub disk_limit : ℕ
  pub cpu_limit : ℕ

-- limits of one type, in this order
unfoldable pub add_limits : ResourceManager → LimitType → List (ResourceType × ℕ) → ResourceManager
add_limits rm limit_type [] = rm
add_limits rm limit_type (l ∷ ls) =
    add_limits (resource_manager_add_limit rm l.0 limit_type l.1).0 limit_type ls

-- `scaled` is the product with the `double` 0.8 as an integer.
unfoldable pub resource_manager_create : Bool → (ℕ → ℕ) → Settings → Option (Option ResourceManager)
resource_manager_create granted scaled c =
    let bytes = c.memory_limit * 1024 * 1024 in
    let disk_bytes = c.disk_limit * 1024 * 1024 * 1024 in
    let empty : ResourceManager = record {
      limits = [];
      total_memory_usage = 0;
      total_connections = 0;
      total_queries = 0;
      total_transactions = 0;
      disk_usage = 0;
      cpu_usage_percent = 0;
    } in
    let hard_limits : List (ResourceType × ℕ) =
      (memory, bytes)
      ∷ (connection, c.connection_limit)
      ∷ (query, c.query_limit)
      ∷ (transaction, c.transaction_limit)
      ∷ (disk, disk_bytes)
      ∷ (cpu, c.cpu_limit)
      ∷ [] in
    let soft_limits : List (ResourceType × ℕ) =
      (memory, scaled bytes)
      ∷ (connection, scaled c.connection_limit)
      ∷ (query, scaled c.query_limit)
      ∷ (transaction, scaled c.transaction_limit)
      ∷ (disk, scaled disk_bytes)
      ∷ (cpu, scaled c.cpu_limit)
      ∷ [] in
    if granted
    then if leb (2 ^ 31) bytes || leb (2 ^ 31) disk_bytes
      then none
      else some (some (add_limits (add_limits empty hard hard_limits) soft soft_limits))
    else some none
