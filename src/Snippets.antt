-- ===== src/Snippets.antt =====
-- src/state/snippetsStore.ts: the snippets, fetched anew after every change. `loadSnippets` is cut
-- at its await; the backend `B` and its calls (src/lib/tauri-bridge/snippets.ts) are a parameter.
pub mod Loads
use connect_hub.Base.{ℕ, suc, String, not, List, [], Option, none, some, eqb, if◌then◌else◌}
use connect_hub.Bridge.{Snippet, SnippetInput, Response, ok, failed}

-- `load_request_id` is the module's variable `loadRequestId`.
pub record SnippetsState : Type 0 where
  pub snippets : List Snippet
  pub load_request_id : ℕ

abbrev initial : SnippetsState
initial = record { snippets = []; load_request_id = 0 }

unfoldable pub begin_load : SnippetsState → SnippetsState × ℕ
begin_load s = (record s { load_request_id = suc s.load_request_id }, suc s.load_request_id)

-- The rest of `loadSnippets`.
unfoldable pub after_load : SnippetsState → ℕ → List Snippet → SnippetsState
after_load s request_id snippets =
    if not (eqb request_id s.load_request_id) then s else record s { snippets = snippets }

data Mutation : Type 0 where
  create_snippet : SnippetInput → Mutation
  update_snippet : String → SnippetInput → Mutation
  delete_snippet : String → Mutation

record Calls (B : Type 0) : Type 0 where
  pub snippet_create : B → SnippetInput → B × Response Snippet
  pub snippet_update : B → String → SnippetInput → B × Response Snippet
  pub snippet_delete : B → String → B × Response (Unit {0})

abbrev made : {B A : Type 0} → (A → Option Snippet) → B × Response A → B × Response (Option Snippet)
made f (b, ok a) = (b, ok (f a))
made f (b, failed e) = (b, failed e)

-- The call that a change makes, up to its await.
call : {B : Type 0} → Calls B → B → Mutation → B × Response (Option Snippet)
call c b (create_snippet input) = made some (c.snippet_create b input)
call c b (update_snippet id input) = made some (c.snippet_update b id input)
call c b (delete_snippet id) = made (λ u. none) (c.snippet_delete b id)

-- What follows the call: a load and its number, unless the call threw.
after_call : SnippetsState → Response (Option Snippet) → SnippetsState × Option ℕ
unfolding begin_load
after_call s (failed e) = (s, none)
after_call s (ok m) = let (s', number) = begin_load s in (s', some number)
