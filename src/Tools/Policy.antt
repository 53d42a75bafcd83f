-- ===== src/Tools/Policy.antt =====
-- policy.rs: the facts and decisions of a host's policy, and what calls run in parallel.
use text.Mathlib.Text.{◌==◌}
use aifluxon.Core.Operation.{PendingOperationDraft}
use aifluxon.Core.Tool.{
  ToolDescriptor, ExecutionAuthority, PermissionMode, default, managed, AgentFilesystemScope,
  workspace, isolated, scoped_selection, grants,
}
use aifluxon.Tools.Validation.{ToolInvocation}
use aifluxon.Prelude.{
  ltb, if◌then◌else◌, length, any, keep_if, Result, ℕ, Bool, true, false, not, ◌&&◌, Option, none,
  List, [], String, ok,
}

pub record ResolvedResourceFacts : Type 0 where
  pub resource : Option String
  pub cwd : Option String
  pub network_target : Option String
  pub prepared_effect : Bool

pub record ToolPolicyInput (V : Type 0) : Type 0 where
  pub descriptor : ToolDescriptor V
  pub invocation : ToolInvocation V
  pub facts : ResolvedResourceFacts
  pub authority : ExecutionAuthority

pub data ToolDecision (V : Type 0) : Type 0 where
  allow : ToolDecision V
  deny : String → ToolDecision V
  require_approval : PendingOperationDraft V → ToolDecision V

-- The trait. The default of `resolve_facts` is `no_facts`.
pub record ToolPolicy (V : Type 0) : Type 0 where
  pub resolve_facts :
      ToolDescriptor V → ToolInvocation V → ExecutionAuthority → Result String ResolvedResourceFacts
  pub evaluate : ToolPolicyInput V → ToolDecision V

unfoldable pub no_facts : ResolvedResourceFacts
no_facts = record { resource = none; cwd = none; network_target = none; prepared_effect = false }

unfoldable pub allow_all : {V : Type 0} → ToolPolicy V
unfolding no_facts
allow_all = record { resolve_facts = λ _ _ _. ok no_facts; evaluate = λ _. allow }

unfoldable pub missing_required_capabilities : {V : Type 0} → ToolPolicyInput V → List ℕ
unfolding grants
missing_required_capabilities input =
    keep_if (λ capability. not (grants input.authority capability))
      input.descriptor.required_capabilities

unfoldable pub permission_mode_from_str : String → PermissionMode
permission_mode_from_str value =
    if value == "managed"
    then managed
    else if value == "trusted"
    then PermissionMode.trusted
    else default

-- permission_mode == PermissionMode::Trusted.
unfoldable pub is_trusted : PermissionMode → Bool
is_trusted PermissionMode.trusted = true
is_trusted _ = false

unfoldable pub shell_filesystem_scope : PermissionMode → Bool → AgentFilesystemScope
unfolding is_trusted
shell_filesystem_scope mode has_workspace =
    if is_trusted mode
    then AgentFilesystemScope.trusted
    else if not has_workspace
    then isolated
    else workspace

unfoldable pub filesystem_scope : Bool → PermissionMode → Bool → AgentFilesystemScope
unfolding is_trusted
filesystem_scope has_scoped_selection mode has_workspace =
    if has_scoped_selection
    then scoped_selection
    else if is_trusted mode
    then AgentFilesystemScope.trusted
    else if not has_workspace
    then isolated
    else workspace

unfoldable pub execution_authority : Bool → PermissionMode → Bool → ExecutionAuthority
unfolding filesystem_scope
execution_authority has_scoped_selection mode has_workspace = record {
  permission_mode = mode;
  filesystem_scope = filesystem_scope has_scoped_selection mode has_workspace;
  capabilities = [];
}

unfoldable pub can_run_tool_calls_in_parallel : {V : Type 0} → List (ToolDescriptor V) → Bool
can_run_tool_calls_in_parallel calls =
    ltb 1 (length calls) && not (any (λ d. not d.parallel_safe) calls)
