-- ===== src/Tags.antt =====
-- src/state/tagsStore.ts and src/state/workspacesStore.ts: the tags and the saved workspaces, fetched
-- anew after every change, by loads that are not numbered. `loadAll` is cut at its await; the
-- backend `B` and its calls (src/lib/tauri-bridge/tags.ts, workspaces.ts) are a parameter.
pub mod Overtaken
use connect_hub.Base.{ℕ, String, Bool, true, false, List, [], Option, none, some}
use connect_hub.Bridge.{Tag, Workspace, WorkspaceTab, WorkspaceTabInput, Response, ok, failed}

pub record TagsState : Type 0 where
  pub tags : List Tag
  pub loaded : Bool

abbrev initial : TagsState
initial = record { tags = []; loaded = false }

-- The rest of `loadAll`.
unfoldable pub after_load : TagsState → List Tag → TagsState
after_load s tags = record { tags = tags; loaded = true }

data Mutation : Type 0 where
  create_tag : String → Mutation
  delete_tag : String → Mutation

record Calls (B : Type 0) : Type 0 where
  pub tag_create : B → String → B × Response Tag
  pub tag_delete : B → String → B × Response (Unit {0})

abbrev made : {B A M : Type 0} → (A → M) → B × Response A → B × Response M
made f (b, ok a) = (b, ok (f a))
made f (b, failed e) = (b, failed e)

call : {B : Type 0} → Calls B → B → Mutation → B × Response (Option Tag)
call c b (create_tag label) = made some (c.tag_create b label)
call c b (delete_tag id) = made (λ u. none) (c.tag_delete b id)

-- Whether a load follows the call.
abbrev loads_next : {M : Type 0} → Response M → Bool
loads_next (ok m) = true
loads_next (failed e) = false

record WorkspacesState : Type 0 where
  pub workspaces : List Workspace
  pub loaded : Bool

abbrev initial_workspaces : WorkspacesState
initial_workspaces = record { workspaces = []; loaded = false }

after_load_workspaces : WorkspacesState → List Workspace → WorkspacesState
after_load_workspaces s workspaces = record { workspaces = workspaces; loaded = true }

data WorkspaceMutation : Type 0 where
  create_workspace : String → List WorkspaceTabInput → WorkspaceMutation
  rename_workspace : String → String → WorkspaceMutation
  delete_workspace : String → WorkspaceMutation

record WorkspaceCalls (B : Type 0) : Type 0 where
  pub workspace_create : B → String → List WorkspaceTabInput → B × Response Workspace
  pub workspace_rename : B → String → String → B × Response Workspace
  pub workspace_delete : B → String → B × Response (Unit {0})

call_workspaces :
    {B : Type 0} → WorkspaceCalls B → B → WorkspaceMutation → B × Response (Option Workspace)
call_workspaces c b (create_workspace label tabs) = made some (c.workspace_create b label tabs)
call_workspaces c b (rename_workspace id label) = made some (c.workspace_rename b id label)
call_workspaces c b (delete_workspace id) = made (λ u. none) (c.workspace_delete b id)
