-- ===== src/Jobs/Message.antt =====
-- The error text that Retry of internal/store/background_jobs.go stores.
use Prim.Native.String.{len}
use text.Mathlib.Text.{get?}
use complicatedauth_backend.Prelude.{String, str_eq, Option, none, some, ltb, if◌then◌else◌}
use complicatedauth_backend.Prelude.Text.{trim_space}

abbrev or_default : String → String
or_default message = if str_eq message "" then "background job failed" else message

unfoldable pub message_of : Option String → String
unfolding trim_space
message_of none = "background job failed"
message_of (some text) = or_default (trim_space text)

-- message[:2000] cuts bytes. `none`: the cut falls inside a character, and what is left is not UTF-8,
-- which a text column of PostgreSQL does not take.
unfoldable pub stored_message : Option String → Option String
unfolding message_of
stored_message cause =
    let message = message_of cause in
    if ltb 2000 (len message) then get? message 0 2000 else some message
