-- ===== src/Bridge.antt =====
-- The records that cross the bridge to the backend (src/lib/tauri-bridge/types.ts, ai.ts,
-- snippets.ts). Port numbers, sort orders and counts are whole and not negative.
use connect_hub.Base.{ℕ, String, Bool, List, Option}

pub record Group : Type 0 where
  pub id : String
  pub parent_id : Option String
  pub name : String
  pub sort_order : ℕ

pub record GroupInput : Type 0 where
  pub parent_id : Option String
  pub name : String
  pub sort_order : ℕ

pub data AuthMethod : Type 0 where
  password private_key agent : AuthMethod

pub record Identity : Type 0 where
  pub id : String
  pub label : String
  pub username : String
  pub auth_method : AuthMethod
  pub ssh_key_id : Option String
  pub has_password : Bool

pub record IdentityInput : Type 0 where
  pub label : String
  pub username : String
  pub auth_method : AuthMethod
  pub ssh_key_id : Option String
  pub password : Option String

pub record SshKey : Type 0 where
  pub id : String
  pub label : String
  pub key_type : String
  pub public_key : String
  pub fingerprint : String
  pub created_at : String

pub record GenerateKeyInput : Type 0 where
  pub label : String

pub record ImportKeyInput : Type 0 where
  pub label : String
  pub private_key_pem : String
  pub passphrase : Option String

pub record Tag : Type 0 where
  pub id : String
  pub label : String

pub record Host : Type 0 where
  pub id : String
  pub group_id : Option String
  pub label : String
  pub hostname : String
  pub port : ℕ
  pub identity_id : Option String
  pub vpn_profile_id : Option String
  pub color : Option String
  pub icon : Option String
  pub notes : Option String
  pub sort_order : ℕ
  pub last_connected_at : Option String
  pub is_favorite : Bool
  pub tags : List Tag

pub record HostInput : Type 0 where
  pub group_id : Option String
  pub label : String
  pub hostname : String
  pub port : ℕ
  pub identity_id : Option String
  pub vpn_profile_id : Option String
  pub color : Option String
  pub icon : Option String
  pub notes : Option String
  pub sort_order : ℕ
  pub tag_ids : List String

pub record ImportSummary : Type 0 where
  pub imported : ℕ
  pub updated : ℕ
  pub warnings : List String

pub record VpnProfile : Type 0 where
  pub id : String
  pub label : String
  pub config : String
  pub auth_username : Option String
  pub has_auth_password : Bool
  pub avoid_default_route : Bool
  pub created_at : String

pub record VpnProfileInput : Type 0 where
  pub label : String
  pub config : String
  pub auth_username : Option String
  pub auth_password : Option String
  pub avoid_default_route : Bool

pub data VpnState : Type 0 where
  connecting connected disconnecting disconnected error : VpnState

pub record VpnStatus : Type 0 where
  pub state : VpnState
  pub message : Option String

pub record VpnConnectionStatus : Type 0 where
  pub profile_id : String
  pub status : VpnStatus

pub record Snippet : Type 0 where
  pub id : String
  pub label : String
  pub body : String

pub record SnippetInput : Type 0 where
  pub label : String
  pub body : String

pub record Workspace : Type 0 where
  pub id : String
  pub label : String
  pub sort_order : ℕ
  pub created_at : String
  pub tab_count : ℕ

pub record WorkspaceTab : Type 0 where
  pub id : String
  pub workspace_id : String
  pub host_id : String
  pub kind : String
  pub pane_count : ℕ
  pub layout_json : Option String
  pub sort_order : ℕ

pub record WorkspaceTabInput : Type 0 where
  pub host_id : String
  pub kind : String
  pub pane_count : ℕ
  pub layout_json : Option String
  pub sort_order : ℕ

pub record ExecOutput : Type 0 where
  pub stdout : String
  pub stderr : String
  pub exit_status : Option ℕ
  pub truncated : Bool

pub data AiProvider : Type 0 where
  openai anthropic : AiProvider

pub record ToolCall : Type 0 where
  pub command : String
  pub purpose : String

pub data AiMessageInput : Type 0 where
  user : String → AiMessageInput
  assistant : Option String → Option ToolCall → AiMessageInput
  tool_result : String → ExecOutput → AiMessageInput

pub data AiTurnResult : Type 0 where
  text : String → AiTurnResult
  tool_call : ToolCall → AiTurnResult

pub data AiCommandExecResult : Type 0 where
  ran : ExecOutput → AiCommandExecResult
  needs_confirmation : String → AiCommandExecResult

-- What a call of the backend comes back with: a value, or the text of the error it throws.
pub data Response (A : Type 0) : Type 0 where
  ok : A → Response A
  failed : String → Response A
