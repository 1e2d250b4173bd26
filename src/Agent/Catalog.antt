-- ===== src/Agent/Catalog.antt =====
-- The tools of internal/agent/tools.go as the model sees them, and `NewToolRegistry`.
use workspaces.Common.{Text, text, text_eq, List, [], ◌∷◌, pure}
use workspaces.Agent.Ollama.{ToolParam, ToolFuncParams}
use workspaces.Agent.Tools.{bash, read_file, write_file, Execute, Tool, ToolRegistry, register}

-- Parameters are all strings, and all required.
abbrev string_param : Text → Text → Text × ToolParam
string_param name description =
    (name, record { type_name = text "string"; description = description })

abbrev names_of : List (Text × ToolParam) → List Text
names_of [] = []
names_of ((k, _) ∷ ps) = k ∷ names_of ps

abbrev object : List (Text × ToolParam) → ToolFuncParams
object ps = record { type_name = text "object"; properties = ps; required = names_of ps }

module _ {W : Type 0} where
  -- A tool of the GitHub layer, which only answers.
  stub : Text → Execute W
  stub answer ctx sandbox drv args = pure answer

  register_all : ToolRegistry W → List (Tool W) → ToolRegistry W
  unfolding register
  register_all reg [] = reg
  register_all reg (t ∷ ts) = register_all (register reg t) ts

module _ (W : Type 0) where
  tool_bash : Tool W
  unfolding bash
  tool_bash = record {
    name = text "bash";
    description =
        text
          "Run a shell command inside the sandbox. Each call is a fresh shell — state is NOT preserved between calls. Use absolute paths or chain with `&&`. Use this for everything: git clone/commit/push, running tests, installing packages, searching files, creating directories, etc.";
    parameters =
        object (string_param (text "command") (text "The shell command to execute (bash -c)") ∷ []);
    execute = bash;
  }

  tool_read_file : Tool W
  unfolding read_file
  tool_read_file = record {
    name = text "read_file";
    description = text "Read the contents of a file from the sandbox filesystem.";
    parameters =
        object (string_param (text "path") (text "Absolute path of the file to read") ∷ []);
    execute = read_file;
  }

  tool_write_file : Tool W
  unfolding write_file
  tool_write_file = record {
    name = text "write_file";
    description =
        text
          "Write content to a file in the sandbox filesystem. Creates parent directories as needed.";
    parameters = object (
        string_param (text "path") (text "Absolute path of the file to write")
        ∷ string_param (text "content") (text "The file content to write")
        ∷ []);
    execute = write_file;
  }

  tool_create_pr : Tool W
  unfolding stub
  tool_create_pr = record {
    name = text "create_pr";
    description =
        text "Create a GitHub pull request. (Delegates to the GitHub layer — stub until Week 9.)";
    parameters = object (
        string_param (text "title") (text "PR title")
        ∷ string_param (text "body") (text "PR body / description")
        ∷ []);
    execute = stub (text "PR creation stubbed — will be wired in Week 9 (GitHub layer)");
  }

  tool_set_pr_description : Tool W
  unfolding stub
  tool_set_pr_description = record {
    name = text "set_pr_description";
    description = text "Update the description of an existing pull request. (Stub until Week 9.)";
    parameters = object (string_param (text "description") (text "New PR description body") ∷ []);
    execute = stub (text "PR description update stubbed — will be wired in Week 9");
  }

  tool_post_review_comment : Tool W
  unfolding stub
  tool_post_review_comment = record {
    name = text "post_review_comment";
    description = text "Post an inline review comment on a PR file. (Stub until Week 9.)";
    parameters = object (
        string_param (text "path") (text "File path the comment applies to")
        ∷ string_param (text "line") (text "Line number")
        ∷ string_param (text "comment") (text "Review comment text")
        ∷ []);
    execute = stub (text "review comment stubbed — will be wired in Week 9");
  }

  tool_approve_pr : Tool W
  unfolding stub
  tool_approve_pr = record {
    name = text "approve_pr";
    description = text "Approve the current pull request. (Stub until Week 9.)";
    parameters = object ([]);
    execute = stub (text "PR approval stubbed — will be wired in Week 9");
  }

  tool_request_changes : Tool W
  unfolding stub
  tool_request_changes = record {
    name = text "request_changes";
    description = text "Request changes on the current pull request. (Stub until Week 9.)";
    parameters = object (string_param (text "reason") (text "Reason for requesting changes") ∷ []);
    execute = stub (text "request-changes stubbed — will be wired in Week 9");
  }

  unfoldable pub new_tool_registry : ToolRegistry W
  unfolding register_all tool_bash tool_read_file tool_write_file tool_create_pr
      tool_set_pr_description tool_post_review_comment tool_approve_pr tool_request_changes text
      text_eq
  new_tool_registry = register_all [] (
      tool_bash ∷ tool_read_file ∷ tool_write_file ∷ tool_create_pr ∷ tool_set_pr_description
      ∷ tool_post_review_comment ∷ tool_approve_pr ∷ tool_request_changes ∷ [])
