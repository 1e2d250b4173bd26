-- ===== src/Agent/Ollama.antt =====
-- internal/agent/ollama.go: the messages of the chat API, and the client over an HTTP transport.
pub mod Reply
use workspaces.Common.{
  ℕ, ◌*◌, ◌^◌, Text, text, List, Bool, false, Result, message, Step, ◌++◌, ◌==◌, if◌then◌else◌,
  decimal, fail, lift, context, ◌>>=◌,
}
use workspaces.Common.Int.{ℤ}
use workspaces.Sandbox.Driver.{Context}

-- The timeout is counted in nanoseconds.
pub record OllamaClient : Type 0 where
  pub base_url : Text
  pub timeout : ℕ

unfoldable pub new_ollama_client : Text → OllamaClient
new_ollama_client base_url = record { base_url = base_url; timeout = 10 * (60 * 10 ^ 9) }

-- A call's arguments by name. The program reads a value only through `%v`, so the model holds that.
abbrev pub Arguments : Type 0
Arguments = List (Text × Text)

pub record ToolCall : Type 0 where
  pub name : Text
  pub arguments : Arguments

pub record ChatMessage : Type 0 where
  pub role : Text
  pub content : Text
  pub tool_calls : List ToolCall

pub record ToolParam : Type 0 where
  pub type_name : Text
  pub description : Text

pub record ToolFuncParams : Type 0 where
  pub type_name : Text
  pub properties : List (Text × ToolParam)
  pub required : List Text

pub record ToolFunction : Type 0 where
  pub name : Text
  pub description : Text
  pub parameters : ToolFuncParams

pub record ToolDef : Type 0 where
  pub type_name : Text
  pub function : ToolFunction

-- The temperature is counted in thousandths.
pub record ModelOptions : Type 0 where
  pub temperature : ℕ
  pub num_ctx : ℕ

pub record ChatRequest : Type 0 where
  pub model : Text
  pub messages : List ChatMessage
  pub tools : List ToolDef
  pub stream : Bool
  pub options : ModelOptions

pub record ChatResponse : Type 0 where
  pub model : Text
  pub reply : ChatMessage
  pub is_done : Bool
  pub total_duration : ℤ
  pub eval_count : ℤ
  pub prompt_eval_count : ℤ

-- JSON and HTTP. A response is its status code and its body; the body of a refusal is read to its
-- end without regard to errors.
pub record Http (W : Type 0) : Type 0 where
  pub marshal : ChatRequest → Result Text
  -- `http.NewRequestWithContext` for a POST to a URL, which may refuse the URL
  pub check_url : Text → Result (Unit {0})
  pub post : Context W → Text → Text → Step W (ℕ × Text)
  pub decode : Text → Result ChatResponse

module _ {W : Type 0} (H : Http W) where
  read_response : ℕ × Text → Step W ChatResponse
  read_response (code, body) =
      if code == 200
      then context (text "ollama: decode response: ") (lift (H.decode body))
      else fail (message (text "ollama: status " ++ decimal code ++ text ": " ++ body))

  unfoldable pub chat : Text → Context W → ChatRequest → Step W ChatResponse
  unfolding read_response
  chat base_url ctx req = do
    body ←
        context (text "ollama: marshal request: ")
          (lift (H.marshal (record req { stream = false })))
    let url = base_url ++ text "/api/chat"
    _ ← context (text "ollama: build request: ") (lift (H.check_url url))
    response ← context (text "ollama: http call: ") (H.post ctx url body)
    read_response response
