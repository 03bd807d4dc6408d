-- ===== src/Auth/Tests.antt =====
-- A page whose first lookup fails, and the theorems about it applied.
use logdeck.Base.{◌+◌, true, false, ◌≡◌, refl, none, List, [], ◌∷◌}
use logdeck.Base.Text.{codes}
use logdeck.Auth.{
  null, unreachable, not_ok, null_config, AuthState, lookup_settled, require_auth_if_enabled,
  await_auth_enabled,
}
use logdeck.Auth.Events.{AuthEvent, guard_starts, lookup_ends, run, IsLoaded}
use logdeck.Auth.Guard.{let_in, require_auth_if_enabled-closed}
use logdeck.Auth.Lookups.{asked, failures, lookups-run}

abbrev page : AuthState
page = record {
  stored_token = none;
  pathname = codes "/";
  auth_enabled_promise = null;
  waiting = [];
  lookups = 0;
  guards = [];
  user = none;
  token = none;
  is_loading = true;
  is_auth_enabled = true;
}

abbrev events : List AuthEvent
events =
    guard_starts 1
    ∷ lookup_ends unreachable
    ∷ guard_starts 2
    ∷ lookup_ends null_config
    ∷ guard_starts 4
    ∷ lookup_ends not_ok
    ∷ guard_starts 3
    ∷ []

page-IsLoaded : IsLoaded page
page-IsLoaded = record { no_promise = refl; no_lookups = refl; no_guards = refl }

require_auth_if_enabled-closed_example : let_in 2 (run events page).guards ≡ false
unfolding lookup_settled require_auth_if_enabled await_auth_enabled
require_auth_if_enabled-closed_example =
    require_auth_if_enabled-closed 2 events page page-IsLoaded refl refl

lookups-run_example :
    (run events page).lookups ≡ failures events page + asked (run events page).auth_enabled_promise
lookups-run_example = lookups-run events page page-IsLoaded
