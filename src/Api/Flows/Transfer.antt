-- ===== src/Api/Flows/Transfer.antt =====
-- The export and the import of flows in crates/z8run-api/src/routes.rs.
use Prim.Native.String.{◌++◌ as text_append, compare}
use text.Mathlib.Text.{is_lt}
use z8run.Base.{
  ℕ, String, Bool, not, ◌&&◌, Option, none, some, List, [], ◌∷◌, filter, map, length, if◌then◌else◌,
  str_eq,
}
use z8run.Json.{Value}
use z8run.Error.{Uuid}
use z8run.Flow.{Flow, new_flow}
use z8run.Nodes.{get_field, list_of, contains_text}
use z8run.Storage.Vault.{sort_by}
use z8run.Storage.Flows.{get_flow_for_user, save_flow_with_user}
use z8run.Api.{ApiResult, ok, err, ◌>>=◌, ok_or, bad_request, index, str_of, unwrap_or, as_array}
use z8run.Api.Flows.{Server, Env, exported, imported, Handled, having, put_position}

abbrev pub valid_node_types : List String
valid_node_types =
    "aggregator" ∷ "ai-agent" ∷ "batch" ∷ "classifier" ∷ "conversation-memory" ∷ "crm"
    ∷ "cron-trigger" ∷ "csv" ∷ "database" ∷ "debug" ∷ "delay" ∷ "embeddings" ∷ "filter" ∷ "function"
    ∷ "http-in" ∷ "http-out" ∷ "http-request" ∷ "human-handoff" ∷ "if-else" ∷ "image-gen" ∷ "json"
    ∷ "llm" ∷ "loop" ∷ "mapper" ∷ "mqtt" ∷ "prompt-template" ∷ "sanitize" ∷ "structured-output"
    ∷ "stt" ∷ "summarizer" ∷ "switch" ∷ "text-splitter" ∷ "timer" ∷ "tts" ∷ "twilio"
    ∷ "vector-store" ∷ "webhook" ∷ "webhook-trigger" ∷ "whatsapp" ∷ []

-- `Vec::dedup`, and `join(", ")`.
abbrev pub dedup_from : String → List String → List String
dedup_from s [] = s ∷ []
dedup_from s (t ∷ ts) = let rest = dedup_from t ts in if str_eq s t then rest else s ∷ rest

abbrev pub dedup : List String → List String
dedup [] = []
dedup (s ∷ ss) = dedup_from s ss

abbrev pub join : List String → String
join [] = ""
join (s ∷ []) = s
join (s ∷ t ∷ ts) = text_append s (text_append ", " (join (t ∷ ts)))

abbrev pub type_of : Value → String
type_of node = unwrap_or "unknown" (str_of (index (index node "data") "type"))

abbrev pub items_of : Option Value → List Value
items_of v = elim (as_array v) [ none ↦ [] | some vs ↦ list_of vs ]

-- The JSON of the flow, with new identifiers and times.
unfoldable pub restored : (id : Uuid) (now : ℕ) → (name : String) → Value → Flow
unfolding new_flow index get_field
restored id now name flow_data =
    let flow = new_flow id now name in
    record flow {
      description = unwrap_or "" (str_of (index flow_data "description"));
      version = unwrap_or "0.1.0" (str_of (index flow_data "version"));
      metadata = record flow.metadata {
        positions = put_position "viewport" (get_field "viewport" flow_data) (
            put_position "canvas_edges" (get_field "canvas_edges" flow_data) (
              put_position "canvas_nodes" (get_field "canvas_nodes" flow_data)
                flow.metadata.positions));
      };
    }

module _ (env : Env) where
  unfoldable pub export_flow : (user id : Uuid) → Server → Handled
  unfolding get_flow_for_user
  export_flow user id s =
      having env (get_flow_for_user (env.fails 0) id user s.tables) s (λ f. (s, ok (exported f)))

  abbrev pub is_unknown : String → Bool
  is_unknown t = not (contains_text t valid_node_types) && not (contains_text t env.node_types)

  abbrev pub refuse_unknown : List String → ApiResult {0} Unit
  refuse_unknown [] = ok tt
  refuse_unknown (t ∷ ts) = err (
      bad_request (
        text_append "Flow contains unsupported node types: " (
          text_append (join (dedup (sort_by (λ a b. is_lt (compare a b)) (t ∷ ts))))
            (text_append ". Supported types: " (join env.node_types)))))

  -- The checks before the flow is made: its JSON and its name.
  abbrev pub checked_import : Value → ApiResult (Value × String)
  checked_import payload = do
    flow_data ← ok_or (bad_request "Invalid export: missing 'flow' key") (get_field "flow" payload)
    name ← ok_or (bad_request "Invalid export: missing flow name") (str_of (index flow_data "name"))
    known ←
        refuse_unknown
          (filter is_unknown (map type_of (items_of (some (index flow_data "canvas_nodes")))))
    ok (flow_data, name)

  abbrev pub save_import : (user : Uuid) → Server → ApiResult (Value × String) → Handled
  save_import user s (err e) = (s, err e)
  save_import user s (ok (flow_data, name)) =
      let f = restored env.flow_id env.now name flow_data in
      having env (save_flow_with_user env.now (env.fails 0) f user s.tables) s (λ t. (
        record s { tables = t },
        ok (
            imported f (length (items_of (some (index flow_data "canvas_nodes"))))
              (length (items_of (some (index flow_data "canvas_edges"))))),
      ))

  unfoldable pub import_flow : (user : Uuid) → Value → Server → Handled
  unfolding get_field index list_of filter sort_by save_flow_with_user restored
  import_flow user payload s = save_import user s (checked_import payload)
