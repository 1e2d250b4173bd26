-- ===== src/Api/Response.antt =====
-- The answers of internal/api: `writeJSON`, `writeError` and the response shapes. A `Body` is the
-- value that is encoded as JSON.
use workspaces.Common.{ℕ, Text, List}
use workspaces.Common.Int.{ℤ}
use workspaces.Sandbox.Registry.Sql.{Time}
use workspaces.Sandbox.Registry.{SandboxRecord}
use workspaces.Agent.Accounting.{RunStats}

pub record SandboxResponse : Type 0 where
  pub id : Text
  pub ip : Text
  pub status : Text
  pub project_id : Text
  pub agent_role : Text
  pub created_at : Time
  pub last_active : Time
  pub mem_usage : ℤ
  pub transport : Text

pub record ExecResponse : Type 0 where
  pub stdout : Text
  pub stderr : Text
  pub exit_code : ℤ

pub record AgentRunResponse : Type 0 where
  pub task_id : Text
  pub role : Text
  pub model : Text
  pub answer : Text
  pub sandbox_id : Text
  pub stats : RunStats

pub data Body : Type 0 where
  error_body : Text → Body
  sandbox_body : SandboxResponse → Body
  list_body : List SandboxResponse → Body
  exec_body : ExecResponse → Body
  agent_body : AgentRunResponse → Body
  -- a map from strings to strings
  map_body : List (Text × Text) → Body
  -- bytes that are written as they are
  raw_body : Text → Body
  no_body : Body

pub record Response : Type 0 where
  pub code : ℕ
  pub body : Body

unfoldable pub write_json : ℕ → Body → Response
write_json code body = record { code = code; body = body }

unfoldable pub write_error : ℕ → Text → Response
unfolding write_json
write_error code msg = write_json code (error_body msg)

unfoldable pub record_to_response : SandboxRecord → SandboxResponse
record_to_response sb = record {
  id = sb.id;
  ip = sb.ip;
  status = sb.status;
  project_id = sb.project_id;
  agent_role = sb.agent_role;
  created_at = sb.created_at;
  last_active = sb.last_active;
  mem_usage = sb.mem_usage;
  transport = sb.transport;
}
