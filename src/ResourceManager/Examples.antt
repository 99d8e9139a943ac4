-- ===== src/ResourceManager/Examples.antt =====
-- A run of the limits of src/resource/resource.c.
use micro_meow_db.Prelude.{◌≡◌, true, none, [], ◌∷◌, refl, arith}
use micro_meow_db.ResourceManager.{
  ResourceManager, connection, hard, number, extend, usage_of, is_hard, check_limits,
  resource_manager_check_limit, resource_manager_update_usage, resource_manager_create,
}
use micro_meow_db.ResourceManager.Limits.{is_int, Stays, update-Stays}

-- with the default limit of 100 gigabytes the number of bytes overflows
default_limits :
    resource_manager_create true
      (λ n. n)
      (record {
        memory_limit = 1024;
        connection_limit = 100;
        query_limit = 1000;
        transaction_limit = 100;
        disk_limit = 100;
        cpu_limit = 80;
      })
    ≡ none
unfolding resource_manager_create
default_limits = refl

-- 100 connections at most, 98 in use
abbrev server : ResourceManager
server = record {
  limits =
      record { resource_type = connection; limit_type = hard; value = 100; current_usage = 0 } ∷ [];
  total_memory_usage = 0;
  total_connections = 98;
  total_queries = 0;
  total_transactions = 0;
  disk_usage = 0;
  cpu_usage_percent = 0;
}

update-Stays_example : Stays server connection (resource_manager_update_usage server connection 2)
unfolding usage_of extend resource_manager_check_limit check_limits number is_hard is_int
update-Stays_example = update-Stays server connection 98 2 refl (λ i. omega arith, tt) refl
