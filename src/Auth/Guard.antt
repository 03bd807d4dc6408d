-- ===== src/Auth/Guard.antt =====
-- The guards through any run of the client.
use logdeck.Base.{
  ℕ, Bool, true, false, not, ◌&&◌, ◌||◌, ◌≡◌, ◌⊎◌, refl, Option, none, some, List, [], ◌∷◌, nat_eq,
  Bool-cases, inl, inr, arith,
}
use logdeck.Auth.{
  AuthPromise, pending, known, ConfigReply, unreachable, not_ok, unreadable, null_config, config,
  boolean, other_value, undefined, Passage, allowed, redirected, failed, Waiter, guard, provider,
  AuthState, verified, no_endpoint, refused, broken, kept_promise, fetch_auth_enabled, settle_guard,
  resume_waiter, resume_all, await_auth_enabled, lookup_settled, has_token, require_auth_if_enabled,
  response_received, mount, token_verified, logged_in, logout,
}
use logdeck.Auth.Events.{
  AuthEvent, guard_starts, lookup_ends, response, provider_mounts, token_check_ends, login_granted,
  logs_out, perform, run, IsLoaded, promise-cases, promise-resume_all,
}

-- A guard of this number starts while a token is stored.
abbrev pub now_with_token : ℕ → AuthEvent → AuthState → Bool
now_with_token n (guard_starts m) s = nat_eq m n && has_token s
now_with_token n _ s = false

abbrev pub starts_with_token : ℕ → List AuthEvent → AuthState → Bool
starts_with_token n [] s = false
starts_with_token n (x ∷ xs) s = now_with_token n x s || starts_with_token n xs (perform x s)

-- The server replies with JSON, which is not null, whose `authEnabled` is not true.
abbrev pub replies_not_true : AuthEvent → Bool
replies_not_true (lookup_ends (config (boolean true))) = false
replies_not_true (lookup_ends (config (boolean false))) = true
replies_not_true (lookup_ends (config other_value)) = true
replies_not_true (lookup_ends (config undefined)) = true
replies_not_true _ = false

abbrev pub any_not_true : List AuthEvent → Bool
any_not_true [] = false
any_not_true (x ∷ xs) = replies_not_true x || any_not_true xs

abbrev is_off : AuthPromise → Bool
is_off (known enabled) = not enabled
is_off _ = false

abbrev pub let_in : ℕ → List (ℕ × Passage) → Bool
let_in n [] = false
let_in n ((m, allowed) ∷ gs) = nat_eq m n || let_in n gs
let_in n ((m, redirected) ∷ gs) = let_in n gs
let_in n ((m, failed) ∷ gs) = let_in n gs

-- Only the answer that authentication is off lets those who wait in.
let_in-resume_all :
    (n : ℕ) (ws : List Waiter) (result : Option Bool) (s : AuthState)
    → let_in n (resume_all ws result s).guards ≡ true
    → (let_in n s.guards ≡ true) ⊎ (result ≡ some false)
let_in-resume_all n [] result s h = inl h
let_in-resume_all n (guard m ∷ ws) none s h =
    let_in-resume_all n ws none (settle_guard m failed s) h
let_in-resume_all n (guard m ∷ ws) (some true) s h =
    let_in-resume_all n ws (some true) (settle_guard m redirected s) h
let_in-resume_all n (guard m ∷ ws) (some false) s h = inr refl
let_in-resume_all n (provider ∷ ws) none s h =
    let_in-resume_all n ws none (record s { is_loading = false }) h
let_in-resume_all n (provider ∷ ws) (some b) s h =
    let_in-resume_all n ws (some b) (record s { is_auth_enabled = b; is_loading = false }) h

-- Why authentication is known to be off, and why a guard is let in, behind one event.
record Reasons (n : ℕ) (off token : Bool) (s t : AuthState) : Type 0 where
  why_off : is_off t.auth_enabled_promise ≡ true → (is_off s.auth_enabled_promise || off) ≡ true
  why_in :
      let_in n t.guards ≡ true
      → (let_in n s.guards || (is_off s.auth_enabled_promise || off) || token) ≡ true

Reasons-same :
    (n : ℕ) (s t : AuthState)
    → is_off t.auth_enabled_promise ≡ is_off s.auth_enabled_promise
    → let_in n t.guards ≡ let_in n s.guards
    → Reasons n false false s t
Reasons-same n s t e g = record { why_off = λ h. ground arith; why_in = λ h. ground arith }

-- One who waits for a known answer is let in only by the answer that authentication is off.
Reasons-await :
    (n : ℕ) (w : Waiter) (s : AuthState) → Reasons n false false s (await_auth_enabled w s)
unfolding await_auth_enabled
Reasons-await n w s = elim (promise-cases s.auth_enabled_promise) [
  | inl e ↦ rw (e, await_auth_enabled) (record { why_off = λ h. cc; why_in = λ h. ground arith })
  | inr (inl e) ↦
      rw (e, await_auth_enabled) (record { why_off = λ h. cc; why_in = λ h. ground arith })
  | inr (inr (b, e)) ↦ rw (e, await_auth_enabled) (resumed b w e)
]
  where
    resumed :
        (b : Bool) (w : Waiter)
        → s.auth_enabled_promise ≡ known b
        → Reasons n false false
            (record s { auth_enabled_promise = known b })
            (resume_waiter w (some b) s)
    resumed true (guard m) e = record { why_off = λ h. rw e at h; why_in = λ h. ground arith }
    resumed false (guard m) e = record { why_off = λ h. refl; why_in = λ h. ground arith }
    resumed true provider e = record { why_off = λ h. rw e at h; why_in = λ h. ground arith }
    resumed false provider e = record { why_off = λ h. refl; why_in = λ h. ground arith }

kept_promise-off :
    (reply : ConfigReply)
    → is_off (kept_promise (fetch_auth_enabled reply)) ≡ true
    → replies_not_true (lookup_ends reply) ≡ true
kept_promise-off unreachable h = cc
kept_promise-off not_ok h = cc
kept_promise-off unreadable h = cc
kept_promise-off null_config h = cc
kept_promise-off (config (boolean true)) h = cc
kept_promise-off (config (boolean false)) h = refl
kept_promise-off (config other_value) h = refl
kept_promise-off (config undefined) h = refl

denied :
    (reply : ConfigReply)
    → fetch_auth_enabled reply ≡ some false
    → replies_not_true (lookup_ends reply) ≡ true
denied unreachable h = cc
denied not_ok h = cc
denied unreadable h = cc
denied null_config h = cc
denied (config (boolean true)) h = cc
denied (config (boolean false)) h = refl
denied (config other_value) h = refl
denied (config undefined) h = refl

Reasons-lookup_settled :
    (n : ℕ) (reply : ConfigReply) (s : AuthState)
    → Reasons n (replies_not_true (lookup_ends reply)) false s (lookup_settled reply s)
unfolding lookup_settled
Reasons-lookup_settled n reply s = elim (promise-cases s.auth_enabled_promise) [
  | inl e ↦ rw (e, lookup_settled) (record { why_off = λ h. cc; why_in = λ h. ground arith })
  | inr (inr (b, e)) ↦
      rw (e, lookup_settled) (record { why_off = λ h. ground arith; why_in = λ h. ground arith })
  | inr (inl e) ↦ rw (e, lookup_settled) (settled reply)
]
  where
    t : ConfigReply → AuthState
    t reply = record s {
      auth_enabled_promise = kept_promise (fetch_auth_enabled reply);
      waiting = [];
    }

    settled :
        (reply : ConfigReply)
        → Reasons n
            (replies_not_true (lookup_ends reply))
            false
            (record s { auth_enabled_promise = pending })
            (resume_all s.waiting (fetch_auth_enabled reply) (t reply))
    settled reply = record {
      why_off = λ h.
          kept_promise-off reply
            (rw (promise-resume_all s.waiting (fetch_auth_enabled reply) (t reply)) at h);
      why_in = λ h. elim (let_in-resume_all n s.waiting (fetch_auth_enabled reply) (t reply) h) [
        | inl q ↦ ground arith
        | inr q ↦
            let o : replies_not_true (lookup_ends reply) ≡ true = denied reply q in ground arith
      ];
    }

Reasons-require_auth :
    (n m : ℕ) (s : AuthState)
    → Reasons n false (now_with_token n (guard_starts m) s) s (require_auth_if_enabled m s)
unfolding require_auth_if_enabled
Reasons-require_auth n m s = elim (Bool-cases (has_token s)) [
  | inl e ↦ rw e (record { why_off = λ h. ground arith; why_in = λ h. ground arith })
  | inr e ↦
      let r = Reasons-await n (guard m) s in
      rw e (record { why_off = λ h. r.why_off h; why_in = λ h. ground (arith, r.why_in h) })
]

Reasons-mount : (n : ℕ) (s : AuthState) → Reasons n false false s (mount s)
unfolding mount
Reasons-mount n s = elim (Bool-cases (has_token s)) [
  | inl e ↦ rw e (Reasons-same n s (record s { token = s.stored_token }) refl refl)
  | inr e ↦ rw e (Reasons-await n provider s)
]

Reasons-perform :
    (n : ℕ) (x : AuthEvent) (s : AuthState)
    → Reasons n (replies_not_true x) (now_with_token n x s) s (perform x s)
unfolding response_received token_verified logged_in logout
Reasons-perform n (guard_starts m) s = Reasons-require_auth n m s
Reasons-perform n (lookup_ends (config (boolean true))) s =
    Reasons-lookup_settled n (config (boolean true)) s
Reasons-perform n (lookup_ends (config (boolean false))) s =
    Reasons-lookup_settled n (config (boolean false)) s
Reasons-perform n (lookup_ends (config other_value)) s =
    Reasons-lookup_settled n (config other_value) s
Reasons-perform n (lookup_ends (config undefined)) s = Reasons-lookup_settled n (config undefined) s
Reasons-perform n (lookup_ends null_config) s = Reasons-lookup_settled n null_config s
Reasons-perform n (lookup_ends unreachable) s = Reasons-lookup_settled n unreachable s
Reasons-perform n (lookup_ends not_ok) s = Reasons-lookup_settled n not_ok s
Reasons-perform n (lookup_ends unreadable) s = Reasons-lookup_settled n unreadable s
Reasons-perform n (response status) s = elim (Bool-cases (nat_eq status 401)) [
  | inl e ↦ rw e (Reasons-same n s _ refl refl)
  | inr e ↦ rw e (Reasons-same n s s refl refl)
]
Reasons-perform n provider_mounts s = Reasons-mount n s
Reasons-perform n (token_check_ends token (verified user)) s = Reasons-same n s _ refl refl
Reasons-perform n (token_check_ends token no_endpoint) s = Reasons-same n s _ refl refl
Reasons-perform n (token_check_ends token refused) s = Reasons-same n s _ refl refl
Reasons-perform n (token_check_ends token broken) s = Reasons-same n s _ refl refl
Reasons-perform n (login_granted token user) s = Reasons-same n s _ refl refl
Reasons-perform n logs_out s = Reasons-same n s _ refl refl

let_in-run :
    (n : ℕ) (xs : List AuthEvent) (s : AuthState)
    → let_in n (run xs s).guards ≡ true
    → (let_in n s.guards
        || (is_off s.auth_enabled_promise || any_not_true xs)
        || starts_with_token n xs s)
      ≡ true
let_in-run n [] s h = ground arith
let_in-run n (x ∷ xs) s h =
    let one = Reasons-perform n x s in
    let later = let_in-run n xs (perform x s) h in
    elim (Bool-cases (let_in n (perform x s).guards)) [
      | inl q ↦ let why = one.why_in q in ground arith
      | inr q ↦ elim (Bool-cases (is_off (perform x s).auth_enabled_promise)) [
        | inl o ↦ let why = one.why_off o in ground arith
        | inr o ↦ ground arith
      ]
    ]

-- Whatever happens on the page from its load on, in whatever order, a guard lets the user in only if a
-- token is stored at its start, or a lookup was answered with JSON, which is not null, whose
-- `authEnabled` is false, of another type, or missing. No lookup that fails, no error's status, no text
-- that is not JSON, and no null ever lets anyone in.
pub require_auth_if_enabled-closed :
    (n : ℕ) (xs : List AuthEvent) (s : AuthState)
    → IsLoaded s
    → any_not_true xs ≡ false
    → starts_with_token n xs s ≡ false
    → let_in n (run xs s).guards ≡ false
require_auth_if_enabled-closed n xs s loaded quiet tokenless =
    elim (Bool-cases (let_in n (run xs s).guards)) [
      | inr q ↦ q
      | inl q ↦
          let why = let_in-run n xs s q in
          let none_in : let_in n s.guards ≡ false = rw loaded.no_guards refl in
          let not_off : is_off s.auth_enabled_promise ≡ false = rw loaded.no_promise refl in
          ground arith
    ]
