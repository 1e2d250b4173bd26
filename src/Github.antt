-- ===== src/Github.antt =====
-- internal/github: the client, whose methods are stubs that return an error, and the webhook.
use workspaces.Common.{Text, text, List, Option, some, Result, err, Error, message}
use workspaces.Common.Int.{ℤ}
use workspaces.Api.Response.{Response, raw_body}

pub record Client : Type 0 where
  pub token : Text

pub record ReviewComment : Type 0 where
  pub id : ℤ
  pub body : Text
  pub path : Text
  pub line : ℤ

not_implemented : Error
not_implemented = message (text "github client: not implemented")

unfoldable pub create_pr : Client → (branch title body : Text) → Result ℤ
unfolding not_implemented
create_pr c branch title body = err not_implemented

unfoldable pub get_review_comments : Client → ℤ → Result (List ReviewComment)
unfolding not_implemented
get_review_comments c pr_number = err not_implemented

unfoldable pub update_pr : Client → ℤ → (title body : Text) → Option Error
unfolding not_implemented
update_pr c pr_number title body = some not_implemented

unfoldable pub merge : Client → ℤ → Option Error
unfolding not_implemented
merge c pr_number = some not_implemented

-- The event's name is only logged.
unfoldable pub handle_webhook : Text → Response
handle_webhook event = record {
  code = 501;
  body = raw_body (text "{\"error\":\"not implemented\",\"layer\":\"github\",\"week\":\"9\"}");
}
