-- ===== src/Auth/Events.antt =====
-- What happens on a page, in any order.
use logdeck.Base.{ℕ, Bool, true, false, ◌≡◌, ◌⊎◌, refl, Option, none, some, List, [], ◌∷◌, inl, inr}
use logdeck.Base.Text.{Text}
use logdeck.Auth.{
  User, AuthPromise, null, pending, known, ConfigReply, allowed, redirected, failed, Waiter, guard,
  provider, AuthState, VerifyReply, settle_guard, resume_all, lookup_settled,
  require_auth_if_enabled, response_received, mount, token_verified, logged_in, logout,
}

pub data AuthEvent : Type 0 where
  guard_starts : ℕ → AuthEvent
  lookup_ends : ConfigReply → AuthEvent
  response : (status : ℕ) → AuthEvent
  provider_mounts : AuthEvent
  token_check_ends : Text → VerifyReply → AuthEvent
  login_granted : Text → User → AuthEvent
  logs_out : AuthEvent

abbrev pub perform : AuthEvent → AuthState → AuthState
perform (guard_starts n) s = require_auth_if_enabled n s
perform (lookup_ends reply) s = lookup_settled reply s
perform (response status) s = response_received status s
perform provider_mounts s = mount s
perform (token_check_ends token reply) s = token_verified token reply s
perform (login_granted token user) s = logged_in token user s
perform logs_out s = logout s

abbrev pub run : List AuthEvent → AuthState → AuthState
run [] s = s
run (x ∷ xs) s = run xs (perform x s)

-- The page as it is loaded: no promise, nobody waiting, no guard through.
pub record IsLoaded (s : AuthState) : Type 0 where
  pub no_promise : s.auth_enabled_promise ≡ null
  pub no_lookups : s.lookups ≡ 0
  pub no_guards : s.guards ≡ []

pub promise-cases : (p : AuthPromise) → (p ≡ null) ⊎ (p ≡ pending) ⊎ ((b : Bool) × (p ≡ known b))
promise-cases null = inl refl
promise-cases pending = inr (inl refl)
promise-cases (known b) = inr (inr (b, refl))

pub promise-resume_all :
    (ws : List Waiter) (result : Option Bool) (s : AuthState)
    → (resume_all ws result s).auth_enabled_promise ≡ s.auth_enabled_promise
promise-resume_all [] result s = refl
promise-resume_all (guard m ∷ ws) none s = promise-resume_all ws none (settle_guard m failed s)
promise-resume_all (guard m ∷ ws) (some true) s =
    promise-resume_all ws (some true) (settle_guard m redirected s)
promise-resume_all (guard m ∷ ws) (some false) s =
    promise-resume_all ws (some false) (settle_guard m allowed s)
promise-resume_all (provider ∷ ws) none s =
    promise-resume_all ws none (record s { is_loading = false })
promise-resume_all (provider ∷ ws) (some b) s =
    promise-resume_all ws (some b) (record s { is_auth_enabled = b; is_loading = false })
