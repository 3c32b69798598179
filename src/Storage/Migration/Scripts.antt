-- ===== src/Storage/Migration/Scripts.antt =====
-- The scripts of crates/z8run-storage/src/migration.rs, statement by statement.
use z8run.Base.{true, false, List, [], ◌∷◌}
use z8run.Storage.Migration.{
  Statement, create_table, create_index, drop_table, add_column, table, index_on,
}

abbrev pub pg_migration_v1 : List Statement
pg_migration_v1 =
    create_table true (
      table "flows" (
        "id" ∷ "name" ∷ "description" ∷ "version" ∷ "data" ∷ "status" ∷ "created_at" ∷ "updated_at"
        ∷ []))
    ∷ create_index (index_on "idx_flows_name" "flows" ("name" ∷ []))
    ∷ create_index (index_on "idx_flows_status" "flows" ("status" ∷ []))
    ∷ create_table true (
        table "executions" (
          "id" ∷ "flow_id" ∷ "trace_id" ∷ "status" ∷ "started_at" ∷ "completed_at" ∷ "duration_ms"
          ∷ "error" ∷ "node_logs" ∷ []))
    ∷ create_index (index_on "idx_executions_flow_id" "executions" ("flow_id" ∷ []))
    ∷ create_index (index_on "idx_executions_trace_id" "executions" ("trace_id" ∷ []))
    ∷ create_table true (
        table "credentials"
          ("key" ∷ "encrypted_value" ∷ "nonce" ∷ "created_at" ∷ "updated_at" ∷ []))
    ∷ create_table true (table "schema_migrations" ("version" ∷ "applied_at" ∷ []))
    ∷ []

abbrev pub pg_migration_v2 : List Statement
pg_migration_v2 =
    create_table true (
      table "users" (
        "id" ∷ "email" ∷ "username" ∷ "password_hash" ∷ "roles" ∷ "created_at" ∷ "updated_at" ∷ []))
    ∷ create_index (index_on "idx_users_email" "users" ("email" ∷ []))
    ∷ create_index (index_on "idx_users_username" "users" ("username" ∷ []))
    ∷ create_table true (
        table "connections" (
          "id" ∷ "user_id" ∷ "name" ∷ "conn_type" ∷ "encrypted_data" ∷ "nonce" ∷ "created_at"
          ∷ "updated_at" ∷ []))
    ∷ create_index (index_on "idx_connections_user_id" "connections" ("user_id" ∷ []))
    ∷ create_index (index_on "idx_connections_user_name" "connections" ("user_id" ∷ "name" ∷ []))
    ∷ add_column true "flows" "user_id"
    ∷ create_index (index_on "idx_flows_user_id" "flows" ("user_id" ∷ []))
    ∷ []

abbrev pub pg_migration_v3 : List Statement
pg_migration_v3 =
    drop_table "credentials"
    ∷ create_table false (
        table "credentials"
          ("user_id" ∷ "key" ∷ "encrypted_value" ∷ "nonce" ∷ "created_at" ∷ "updated_at" ∷ []))
    ∷ []

abbrev pub pg_migration_v4 : List Statement
pg_migration_v4 =
    create_table true (
      table "hook_routes"
        ("flow_id" ∷ "user_id" ∷ "method" ∷ "path" ∷ "node_type" ∷ "created_at" ∷ []))
    ∷ create_index (index_on "idx_hook_routes_flow" "hook_routes" ("flow_id" ∷ []))
    ∷ []

abbrev pub pg_migration_v5 : List Statement
pg_migration_v5 =
    drop_table "hook_routes"
    ∷ create_table false (
        table "hook_routes"
          ("flow_id" ∷ "user_id" ∷ "method" ∷ "path" ∷ "node_id" ∷ "node_type" ∷ "created_at" ∷ []))
    ∷ create_index (index_on "idx_hook_routes_flow" "hook_routes" ("flow_id" ∷ []))
    ∷ create_table true
        (table "flow_deployments" ("flow_id" ∷ "user_id" ∷ "snapshot" ∷ "deployed_at" ∷ []))
    ∷ []

abbrev pub sqlite_migration_v1 : List Statement
sqlite_migration_v1 =
    create_table true (
      table "flows" (
        "id" ∷ "name" ∷ "description" ∷ "version" ∷ "data" ∷ "status" ∷ "created_at" ∷ "updated_at"
        ∷ []))
    ∷ create_index (index_on "idx_flows_name" "flows" ("name" ∷ []))
    ∷ create_index (index_on "idx_flows_status" "flows" ("status" ∷ []))
    ∷ create_table true (
        table "executions" (
          "id" ∷ "flow_id" ∷ "trace_id" ∷ "status" ∷ "started_at" ∷ "completed_at" ∷ "duration_ms"
          ∷ "error" ∷ "node_logs" ∷ []))
    ∷ create_index (index_on "idx_executions_flow_id" "executions" ("flow_id" ∷ []))
    ∷ create_index (index_on "idx_executions_trace_id" "executions" ("trace_id" ∷ []))
    ∷ create_table true (
        table "credentials"
          ("key" ∷ "encrypted_value" ∷ "nonce" ∷ "created_at" ∷ "updated_at" ∷ []))
    ∷ create_table true (table "schema_migrations" ("version" ∷ "applied_at" ∷ []))
    ∷ []

abbrev pub sqlite_migration_v2 : List Statement
sqlite_migration_v2 =
    create_table true (
      table "users" (
        "id" ∷ "email" ∷ "username" ∷ "password_hash" ∷ "roles" ∷ "created_at" ∷ "updated_at" ∷ []))
    ∷ create_index (index_on "idx_users_email" "users" ("email" ∷ []))
    ∷ create_index (index_on "idx_users_username" "users" ("username" ∷ []))
    ∷ create_table true (
        table "connections" (
          "id" ∷ "user_id" ∷ "name" ∷ "conn_type" ∷ "encrypted_data" ∷ "nonce" ∷ "created_at"
          ∷ "updated_at" ∷ []))
    ∷ create_index (index_on "idx_connections_user_id" "connections" ("user_id" ∷ []))
    ∷ create_index (index_on "idx_connections_user_name" "connections" ("user_id" ∷ "name" ∷ []))
    ∷ add_column false "flows" "user_id"
    ∷ create_index (index_on "idx_flows_user_id" "flows" ("user_id" ∷ []))
    ∷ []

abbrev pub sqlite_migration_v3 : List Statement
sqlite_migration_v3 =
    drop_table "credentials"
    ∷ create_table false (
        table "credentials"
          ("user_id" ∷ "key" ∷ "encrypted_value" ∷ "nonce" ∷ "created_at" ∷ "updated_at" ∷ []))
    ∷ []

abbrev pub sqlite_migration_v4 : List Statement
sqlite_migration_v4 =
    create_table true (
      table "hook_routes"
        ("flow_id" ∷ "user_id" ∷ "method" ∷ "path" ∷ "node_type" ∷ "created_at" ∷ []))
    ∷ create_index (index_on "idx_hook_routes_flow" "hook_routes" ("flow_id" ∷ []))
    ∷ []

abbrev pub sqlite_migration_v5 : List Statement
sqlite_migration_v5 =
    drop_table "hook_routes"
    ∷ create_table false (
        table "hook_routes"
          ("flow_id" ∷ "user_id" ∷ "method" ∷ "path" ∷ "node_id" ∷ "node_type" ∷ "created_at" ∷ []))
    ∷ create_index (index_on "idx_hook_routes_flow" "hook_routes" ("flow_id" ∷ []))
    ∷ create_table true
        (table "flow_deployments" ("flow_id" ∷ "user_id" ∷ "snapshot" ∷ "deployed_at" ∷ []))
    ∷ []
