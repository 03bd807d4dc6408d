-- ===== src/Auth.antt =====
-- Who is let in: frontend/src/lib/auth-config.ts, auth-guard.ts and api-client.ts, and the provider in
-- frontend/src/contexts/auth-context.tsx.
pub mod Events
pub mod Guard
pub mod Lookups
mod Tests
use logdeck.Base.{
  ℕ, ◌+◌, Bool, true, false, not, Option, none, some, List, [], ◌∷◌, ◌++◌, nat_eq, if◌then◌else◌,
}
use logdeck.Base.Text.{Text, text_Key, codes, text_eq, truthy}
use logdeck.Base.JsMap.{JsMap, set}
use logdeck.LogEntries.{or_null}

pub record User : Type 0 where
  pub username : Text
  pub role : Text

-- `authEnabledPromise`: null, not settled yet, or fulfilled.
pub data AuthPromise : Type 0 where
  null : AuthPromise
  pending : AuthPromise
  known : Bool → AuthPromise

-- What `config.authEnabled` reads: a Boolean, a value of another type, or undefined, as it is for an
-- object without the field, a list, a number, a text and a Boolean.
pub data FieldValue : Type 0 where
  boolean : Bool → FieldValue
  other_value undefined : FieldValue

-- The reply to the lookup: none, one with an error's status, one whose text is no JSON, the JSON null, or
-- other JSON with what its field reads.
pub data ConfigReply : Type 0 where
  unreachable not_ok unreadable null_config : ConfigReply
  config : FieldValue → ConfigReply

-- What a guard comes to. `failed` is the AuthConfigUnavailableError.
pub data Passage : Type 0 where
  allowed redirected failed : Passage

-- Who awaits the promise: a guard, by its number, or the provider.
pub data Waiter : Type 0 where
  guard : ℕ → Waiter
  provider : Waiter

-- The stored token, the path of the page, the promise with those who await it, the lookups made, the
-- guards that are through, and the state of the provider.
pub record AuthState : Type 0 where
  pub stored_token : Option Text
  pub pathname : Text
  pub auth_enabled_promise : AuthPromise
  pub waiting : List Waiter
  pub lookups : ℕ
  pub guards : List (ℕ × Passage)
  pub user : Option User
  pub token : Option Text
  pub is_loading : Bool
  pub is_auth_enabled : Bool

-- `value === true`
abbrev is_true : FieldValue → Bool
is_true (boolean b) = b
is_true other_value = false
is_true undefined = false

-- `none` is the error. Reading a field of null throws.
abbrev pub fetch_auth_enabled : ConfigReply → Option Bool
fetch_auth_enabled unreachable = none
fetch_auth_enabled not_ok = some true
fetch_auth_enabled unreadable = none
fetch_auth_enabled null_config = none
fetch_auth_enabled (config value) = some (is_true value)

abbrev pub settle_guard : ℕ → Passage → AuthState → AuthState
settle_guard n passage s = record s { guards = (n, passage) ∷ s.guards }

-- What stands behind the await: of `requireAuthIfEnabled`, or of `checkIfAuthEnabled`.
abbrev pub resume_waiter : Waiter → Option Bool → AuthState → AuthState
resume_waiter (guard n) none s = settle_guard n failed s
resume_waiter (guard n) (some enabled) s =
    settle_guard n (if enabled then redirected else allowed) s
resume_waiter provider none s = record s { is_loading = false }
resume_waiter provider (some enabled) s = record s { is_auth_enabled = enabled; is_loading = false }

abbrev pub resume_all : List Waiter → Option Bool → AuthState → AuthState
resume_all [] result s = s
resume_all (w ∷ ws) result s = resume_all ws result (resume_waiter w result s)

-- A call that is awaited: it shares the promise that is there, or begins a lookup.
unfoldable pub await_auth_enabled : Waiter → AuthState → AuthState
await_auth_enabled w s = elim s.auth_enabled_promise [
  | null ↦ record s { auth_enabled_promise = pending; waiting = w ∷ []; lookups = s.lookups + 1 }
  | pending ↦ record s { waiting = s.waiting ++ w ∷ [] }
  | known enabled ↦ resume_waiter w (some enabled) s
]

-- The lookup settles. A failure is not kept: the promise is null again before anyone goes on.
abbrev pub kept_promise : Option Bool → AuthPromise
kept_promise none = null
kept_promise (some enabled) = known enabled

unfoldable pub lookup_settled : ConfigReply → AuthState → AuthState
lookup_settled reply s = elim s.auth_enabled_promise [
  | null ↦ s
  | known enabled ↦ s
  | pending ↦
      resume_all s.waiting (fetch_auth_enabled reply)
        (record s { auth_enabled_promise = kept_promise (fetch_auth_enabled reply); waiting = [] })
]

abbrev pub has_token : AuthState → Bool
has_token s = truthy (or_null s.stored_token [])

unfoldable pub require_auth_if_enabled : ℕ → AuthState → AuthState
unfolding await_auth_enabled
require_auth_if_enabled n s =
    if has_token s then settle_guard n allowed s else await_auth_enabled (guard n) s

-- The headers of a request, by name in lower case: those of the request, those of `init`, and the token's.
abbrev set_all : JsMap Text Text → JsMap Text Text → JsMap Text Text
set_all [] headers = headers
set_all ((name, value) ∷ more) headers = set_all more (set name value headers)

unfoldable pub request_headers : JsMap Text Text → JsMap Text Text → AuthState → JsMap Text Text
request_headers request init s =
    let headers = set_all init request in
    if has_token s
    then set (codes "authorization") (codes "Bearer " ++ or_null s.stored_token []) headers
    else headers

-- The part of `authenticatedFetch` behind its await.
unfoldable pub response_received : (status : ℕ) → AuthState → AuthState
response_received status s =
    if nat_eq status 401
    then record s {
      stored_token = none;
      pathname = if not (text_eq s.pathname (codes "/login")) then codes "/login" else s.pathname;
    }
    else s

-- The effect of the provider. With a stored token it goes on to `verifyToken`.
unfoldable pub mount : AuthState → AuthState
unfolding await_auth_enabled
mount s = if has_token s then record s { token = s.stored_token } else await_auth_enabled provider s

-- The replies of /auth/me: with a user, with status 404, with another error, or a failure.
pub data VerifyReply : Type 0 where
  verified : User → VerifyReply
  no_endpoint refused broken : VerifyReply

abbrev signed_out : AuthState → AuthState
signed_out s = record s { stored_token = none; token = none; user = none }

unfoldable pub token_verified : Text → VerifyReply → AuthState → AuthState
token_verified token (verified user) s = record s {
  user = some user;
  token = some token;
  is_auth_enabled = true;
  is_loading = false;
}
token_verified token no_endpoint s = record (signed_out s) {
  is_auth_enabled = false;
  is_loading = false;
}
token_verified token refused s = record (signed_out s) { is_loading = false }
token_verified token broken s = record (signed_out s) { is_loading = false }

-- The part of `login` behind its awaits, for a reply that grants a token; any other throws.
unfoldable pub logged_in : Text → User → AuthState → AuthState
logged_in token user s = record s {
  stored_token = some token;
  token = some token;
  user = some user;
}

unfoldable pub logout : AuthState → AuthState
logout s = signed_out s
