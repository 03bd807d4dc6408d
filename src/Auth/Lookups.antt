-- ===== src/Auth/Lookups.antt =====
-- How often the page asks whether authentication is on.
use logdeck.Base.{
  ℕ, ◌+◌, Bool, true, false, ◌≡◌, refl, ap, ◌∙◌, Option, none, some, List, [], ◌∷◌, nat_eq,
  Bool-cases, inl, inr, arith,
}
use logdeck.Auth.{
  AuthPromise, null, pending, known, ConfigReply, unreachable, not_ok, unreadable, null_config,
  config, allowed, redirected, failed, Waiter, guard, provider, AuthState, verified, no_endpoint,
  refused, broken, kept_promise, fetch_auth_enabled, settle_guard, resume_all, await_auth_enabled,
  lookup_settled, has_token, require_auth_if_enabled, response_received, mount, token_verified,
  logged_in, logout,
}
use logdeck.Auth.Events.{
  AuthEvent, guard_starts, lookup_ends, response, provider_mounts, token_check_ends, login_granted,
  logs_out, perform, run, IsLoaded, promise-cases, promise-resume_all,
}

abbrev pub asked : AuthPromise → ℕ
asked null = 0
asked pending = 1
asked (known b) = 1

-- A lookup that is on its way fails.
abbrev pub fails_now : AuthEvent → AuthState → ℕ
fails_now (lookup_ends reply) s = elim s.auth_enabled_promise [
  | pending ↦ elim (fetch_auth_enabled reply) [ none ↦ 1 | some b ↦ 0 ]
  | null ↦ 0
  | known b ↦ 0
]
fails_now _ s = 0

abbrev pub failures : List AuthEvent → AuthState → ℕ
failures [] s = 0
failures (x ∷ xs) s = fails_now x s + failures xs (perform x s)

lookups-resume_all :
    (ws : List Waiter) (result : Option Bool) (s : AuthState)
    → (resume_all ws result s).lookups ≡ s.lookups
lookups-resume_all [] result s = refl
lookups-resume_all (guard m ∷ ws) none s = lookups-resume_all ws none (settle_guard m failed s)
lookups-resume_all (guard m ∷ ws) (some true) s =
    lookups-resume_all ws (some true) (settle_guard m redirected s)
lookups-resume_all (guard m ∷ ws) (some false) s =
    lookups-resume_all ws (some false) (settle_guard m allowed s)
lookups-resume_all (provider ∷ ws) none s =
    lookups-resume_all ws none (record s { is_loading = false })
lookups-resume_all (provider ∷ ws) (some b) s =
    lookups-resume_all ws (some b) (record s { is_auth_enabled = b; is_loading = false })

-- The lookups made against the promise, before and after.
abbrev Balanced : ℕ → AuthState → AuthState → Type 0
Balanced f s t =
    t.lookups + asked s.auth_enabled_promise ≡ s.lookups + asked t.auth_enabled_promise + f

Balanced-await : (w : Waiter) (s : AuthState) → Balanced 0 s (await_auth_enabled w s)
unfolding await_auth_enabled
Balanced-await w s = elim (promise-cases s.auth_enabled_promise) [
  | inl e ↦ rw (e, await_auth_enabled) (omega arith)
  | inr (inl e) ↦ rw (e, await_auth_enabled) (omega (arith, ap asked e))
  | inr (inr (b, e)) ↦
      rw (e, await_auth_enabled)
        (omega (
          arith,
          lookups-resume_all (w ∷ []) (some b) s,
          ap asked (promise-resume_all (w ∷ []) (some b) s ∙ e),
        ))
]

Balanced-lookup_settled :
    (reply : ConfigReply) (s : AuthState)
    → Balanced (fails_now (lookup_ends reply) s) s (lookup_settled reply s)
unfolding lookup_settled
Balanced-lookup_settled reply s = elim (promise-cases s.auth_enabled_promise) [
  | inl e ↦ rw (e, lookup_settled) (omega (arith, ap asked e))
  | inr (inr (b, e)) ↦ rw (e, lookup_settled) (omega (arith, ap asked e))
  | inr (inl e) ↦ rw (e, lookup_settled) (settled reply)
]
  where
    t : ConfigReply → AuthState
    t reply = record s {
      auth_enabled_promise = kept_promise (fetch_auth_enabled reply);
      waiting = [];
    }

    settled :
        (reply : ConfigReply)
        → (resume_all s.waiting (fetch_auth_enabled reply) (t reply)).lookups + 1
          ≡ s.lookups
            + asked (resume_all s.waiting (fetch_auth_enabled reply) (t reply)).auth_enabled_promise
            + (elim (fetch_auth_enabled reply) [ none ↦ 1 | some b ↦ 0 ])
    settled unreachable = omega (
      arith,
      lookups-resume_all s.waiting none (t unreachable),
      ap asked (promise-resume_all s.waiting none (t unreachable)),
    )
    settled not_ok = omega (
      arith,
      lookups-resume_all s.waiting (some true) (t not_ok),
      ap asked (promise-resume_all s.waiting (some true) (t not_ok)),
    )
    settled unreadable = omega (
      arith,
      lookups-resume_all s.waiting none (t unreadable),
      ap asked (promise-resume_all s.waiting none (t unreadable)),
    )
    settled null_config = omega (
      arith,
      lookups-resume_all s.waiting none (t null_config),
      ap asked (promise-resume_all s.waiting none (t null_config)),
    )
    settled (config v) =
        let r = fetch_auth_enabled (config v) in
        omega (
          arith,
          lookups-resume_all s.waiting r (t (config v)),
          ap asked (promise-resume_all s.waiting r (t (config v))),
        )

Balanced-perform : (x : AuthEvent) (s : AuthState) → Balanced (fails_now x s) s (perform x s)
unfolding require_auth_if_enabled mount response_received token_verified logged_in logout
Balanced-perform (guard_starts m) s = elim (Bool-cases (has_token s)) [
  | inl e ↦ rw e (omega arith)
  | inr e ↦ rw e (Balanced-await (guard m) s)
]
Balanced-perform (lookup_ends reply) s = Balanced-lookup_settled reply s
Balanced-perform (response status) s = elim (Bool-cases (nat_eq status 401)) [
  | inl e ↦ rw e (omega arith)
  | inr e ↦ rw e (omega arith)
]
Balanced-perform provider_mounts s = elim (Bool-cases (has_token s)) [
  | inl e ↦ rw e (omega arith)
  | inr e ↦ rw e (Balanced-await provider s)
]
Balanced-perform (token_check_ends token (verified user)) s = omega arith
Balanced-perform (token_check_ends token no_endpoint) s = omega arith
Balanced-perform (token_check_ends token refused) s = omega arith
Balanced-perform (token_check_ends token broken) s = omega arith
Balanced-perform (login_granted token user) s = omega arith
Balanced-perform logs_out s = omega arith

Balanced-run : (xs : List AuthEvent) (s : AuthState) → Balanced (failures xs s) s (run xs s)
Balanced-run [] s = omega arith
Balanced-run (x ∷ xs) s = omega (arith, Balanced-perform x s, Balanced-run xs (perform x s))

-- The answer is asked for once and kept, a failure is not: from the load of the page on, as many lookups
-- have been made as have failed, and one more if one is on its way or has been answered.
pub lookups-run :
    (xs : List AuthEvent) (s : AuthState)
    → IsLoaded s
    → (run xs s).lookups ≡ failures xs s + asked (run xs s).auth_enabled_promise
lookups-run xs s loaded =
    omega (arith, Balanced-run xs s, loaded.no_lookups, ap asked loaded.no_promise)
