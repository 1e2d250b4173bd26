-- ===== src/Agent/Role.antt =====
-- internal/agent/role.go. A role is an open string type.
use workspaces.Common.{Text, text, text_eq, List, [], ◌∷◌, ◌++◌, if◌then◌else◌, Option, none, some}

abbrev pub Role : Type 0
Role = Text

unfoldable pub planner : Role
planner = text "planner"

unfoldable pub coder : Role
coder = text "coder"

unfoldable pub reviewer : Role
reviewer = text "reviewer"

unfoldable pub tester : Role
tester = text "tester"

unfoldable pub pr_agent : Role
pr_agent = text "pr_agent"

-- `m[k]` on a map that is written out.
unfoldable pub at_role {ℓ} : {A : Type ℓ} → Role → List (Role × A) → Option A
at_role r [] = none
at_role r ((k, a) ∷ m) = if text_eq k r then some a else at_role r m

unfoldable pub role_model : List (Role × Text)
unfolding planner coder reviewer tester pr_agent text
role_model =
    (planner, text "gemma4")
    ∷ (coder, text "qwen3-coder:30b")
    ∷ (reviewer, text "gemma4")
    ∷ (tester, text "qwen3-coder:30b")
    ∷ (pr_agent, text "gemma4")
    ∷ []

unfoldable pub model_for_role : Role → Text
unfolding role_model at_role
model_for_role r = elim (at_role r role_model) [ some m ↦ m | none ↦ text "gemma4" ]

unfoldable pub base_tool_names : List Text
base_tool_names = text "bash" ∷ text "read_file" ∷ text "write_file" ∷ []

unfoldable pub role_extra_tools : List (Role × List Text)
unfolding planner coder reviewer tester pr_agent text
role_extra_tools =
    (pr_agent, text "create_pr" ∷ text "set_pr_description" ∷ [])
    ∷ (reviewer, text "post_review_comment" ∷ text "approve_pr" ∷ text "request_changes" ∷ [])
    ∷ []

unfoldable pub tool_names_for_role : Role → List Text
unfolding base_tool_names role_extra_tools at_role
tool_names_for_role r = elim (at_role r role_extra_tools) [
  | some extras ↦ base_tool_names ++ extras
  | none ↦ base_tool_names
]

planner_prompt : Text
planner_prompt =
    text
      "You are a senior software architect and planner. Your job is to break a\nhigh-level task into concrete, actionable subtasks that a coder agent can execute\none at a time. Be specific about files to create or modify, function signatures,\nand test expectations. Output a numbered list of subtasks."

reviewer_prompt : Text
reviewer_prompt =
    text
      "You are a meticulous code reviewer. Read the diff carefully and check for\nbugs, security issues, style problems, and missing tests. Use the provided tools\nto inspect code, run tests, and leave review comments. Be specific and actionable."

tester_prompt : Text
tester_prompt =
    text
      "You are a test engineer. Your job is to write comprehensive tests for the\ncode changes made by other agents. Use the tools to read the source, create test\nfiles, and run the test suite. Ensure edge cases are covered."

pr_agent_prompt : Text
pr_agent_prompt =
    text
      "You are a pull request agent. Your job is to create well-structured PRs\nwith descriptive titles and bodies. Push the branch, create the PR, and set a\nclear description that summarises the changes, links to the task, and lists the\ntest results."

coder_prompt : Text
coder_prompt =
    text "You are an expert software engineer working inside a persistent Linux sandbox (Debian).\n"
    ++ text
        "The sandbox SURVIVES between calls — do not re-clone or re-install anything that is already there.\n"
    ++ text "\n"
    ++ text "TOOLS (this is the complete list — no others exist):\n"
    ++ text
        "  * bash(command)             — run any shell command as user `forge` in /home/forge/workspace.\n"
    ++ text "  * read_file(path)           — read a file's contents.\n"
    ++ text "  * write_file(path, content) — overwrite/create a file with content.\n"
    ++ text "\n"
    ++ text "ENVIRONMENT:\n"
    ++ text
        "  * User: `forge` (uid 1000). Passwordless sudo is available — prefix commands with `sudo` when root is needed.\n"
    ++ text
        "  * HOME = /home/forge.  Workspace = /home/forge/workspace (also your cwd on every bash call).\n"
    ++ text
        "  * Pre-installed: git, gh (GitHub CLI), go, node 20 + npm/pnpm/yarn, python3 + pip, make, build-essential, jq, rg, curl, wget, kubectl, docker CLI, awscli.\n"
    ++ text
        "  * To install anything else: `sudo apt-get update && sudo apt-get install -y <pkg>` (or pip/npm/go install for language deps).\n"
    ++ text
        "  * Use `gh` for PRs/pushes/auth when the task involves GitHub (it reads GITHUB_TOKEN from env if set).\n"
    ++ text "\n"
    ++ text "WORKFLOW:\n"
    ++ text
        "  1. If the task mentions a repo and /home/forge/workspace/.git does not exist, clone it INTO the workspace: `git clone <url> .` (from /home/forge/workspace). Otherwise reuse what's there.\n"
    ++ text "  2. Create a branch, edit files, run tests, commit, push.\n"
    ++ text
        "  3. If the task requires running a server (web app, API, etc.), start it in the background: `nohup <cmd> &>/tmp/server.log &` then confirm it is up with `curl -s http://localhost:<port>/`.\n"
    ++ text
        "  4. When you start a server, always report the port in your final answer so the user can access it via the proxy URL.\n"
    ++ text
        "  5. For one-shot checks use: go test, go build, npm test (not go run / npm run dev as foreground processes).\n"
    ++ text
        "  6. When the task is fully complete, reply with a plain-text summary (files changed + commands run + test results + server URL if applicable) and STOP calling tools."

default_prompt : Text
default_prompt =
    text
      "You are a helpful AI assistant with access to a sandbox environment.\nUse the provided tools to complete the task."

unfoldable pub role_system_prompt : Role → Text
unfolding planner_prompt coder_prompt reviewer_prompt tester_prompt pr_agent_prompt default_prompt
role_system_prompt r =
    if text_eq r planner
    then planner_prompt
    else if text_eq r coder
    then coder_prompt
    else if text_eq r reviewer
    then reviewer_prompt
    else if text_eq r tester
    then tester_prompt
    else if text_eq r pr_agent
    then pr_agent_prompt
    else default_prompt
