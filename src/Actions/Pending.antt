-- ===== src/Actions/Pending.antt =====
-- Pending actions of different rows, and the confirmation dialog.
use logdeck.Base.{
  ℕ, Bool, true, false, ◌≡◌, refl, sym, ap, ◌∙◌, Option, none, some, List, [], ◌∷◌, Bool-cases, inl,
  inr, if◌then◌else◌, filter,
}
use logdeck.Base.Text.{Text, text_Key, text_eq, text_eq_iff, truthy}
use logdeck.Base.JsMap.{get, get-set, get-delete}
use logdeck.LogStream.State.{error, not_error}
use logdeck.Containers.{ContainerInfo, GroupedContainers}
use logdeck.Actions.{
  ContainerActionType, ComposeAction, ConfirmableAction, Outcome, rejected, fulfilled, Actions,
  begin_pending, end_pending, notify, notify_compose, execute_action, action_settled,
  execute_compose_action, compose_action_settled, ask, confirm_pending_action,
  confirmed_action_settled, handle_confirm_dialog_open_change,
}

-- What happens to the hook, in any order: several actions may be on their way at once.
pub data Step : Type 0 where
  began : ContainerActionType → ContainerInfo → Step
  settled : ContainerInfo → Outcome Text → Step
  confirmed_settled : ConfirmableAction → Outcome Text → Step
  compose_began : ComposeAction → GroupedContainers → Step
  compose_settled : ComposeAction → GroupedContainers → Outcome (List ℕ) → Step
  asked : ContainerActionType → ContainerInfo → Step
  dialog : Bool → Step

unfoldable pub take_step : Step → Actions → Actions
take_step (began t c) s = execute_action t c s
take_step (settled c o) s = action_settled c o s
take_step (confirmed_settled a o) s = confirmed_action_settled a o s
take_step (compose_began a g) s = execute_compose_action a g s
take_step (compose_settled a g o) s = compose_action_settled a g o s
take_step (asked t c) s = ask t c s
take_step (dialog open_now) s = handle_confirm_dialog_open_change open_now s

abbrev pub run : List Step → Actions → Actions
run [] s = s
run (x ∷ xs) s = run xs (take_step x s)

-- The container actions of a row.
abbrev pub is_of : Text → Step → Bool
is_of id (began t c) = text_eq c.id id
is_of id (settled c o) = text_eq c.id id
is_of id (confirmed_settled a o) = text_eq a.container.id id
is_of id _ = false

notify-pending : (o : Outcome Text) (s : Actions) → (notify o s).pending_actions ≡ s.pending_actions
unfolding notify
notify-pending (rejected (error name message)) s = refl
notify-pending (rejected not_error) s = refl
notify-pending (fulfilled message none) s = elim (Bool-cases (truthy message)) [
  | inl e ↦ rw e refl
  | inr e ↦ rw e refl
]
notify-pending (fulfilled message (some (error name m))) s = elim (Bool-cases (truthy message)) [
  | inl e ↦ rw e refl
  | inr e ↦ rw e refl
]
notify-pending (fulfilled message (some not_error)) s = elim (Bool-cases (truthy message)) [
  | inl e ↦ rw e refl
  | inr e ↦ rw e refl
]

notify_compose-pending :
    (a : ComposeAction) (p : Text) (o : Outcome (List ℕ)) (s : Actions)
    → (notify_compose a p o s).pending_actions ≡ s.pending_actions
unfolding notify_compose
notify_compose-pending a p (rejected (error name message)) s = refl
notify_compose-pending a p (rejected not_error) s = refl
notify_compose-pending a p (fulfilled results none) s = refl
notify_compose-pending a p (fulfilled results (some (error name message))) s = refl
notify_compose-pending a p (fulfilled results (some not_error)) s = refl

-- What a step leaves pending on a row.
abbrev after_step : Text → Step → Option ContainerActionType → Option ContainerActionType
after_step id (began t c) before = if text_eq c.id id then some t else before
after_step id (settled c o) before = if text_eq c.id id then none else before
after_step id (confirmed_settled a o) before = if text_eq a.container.id id then none else before
after_step id _ before = before

settled-pending :
    (id : Text) (c : ContainerInfo) (o : Outcome Text) (s : Actions)
    → get id (action_settled c o s).pending_actions
      ≡ (if text_eq c.id id then none else get id s.pending_actions)
unfolding action_settled end_pending
settled-pending id c o s =
    get-delete c.id id (notify o s).pending_actions
    ∙ ap (λ m. if text_eq c.id id then none else get id m) (notify-pending o s)

take_step-pending :
    (id : Text) (x : Step) (s : Actions)
    → get id (take_step x s).pending_actions ≡ after_step id x (get id s.pending_actions)
unfolding take_step execute_action begin_pending confirmed_action_settled execute_compose_action
    compose_action_settled ask handle_confirm_dialog_open_change
take_step-pending id (began t c) s = get-set c.id id t s.pending_actions
take_step-pending id (settled c o) s = settled-pending id c o s
take_step-pending id (confirmed_settled a o) s = settled-pending id a.container o s
take_step-pending id (compose_began a g) s = refl
take_step-pending id (compose_settled a g o) s =
    ap (get id) (notify_compose-pending a g.project o s)
take_step-pending id (asked t c) s = refl
take_step-pending id (dialog true) s = refl
take_step-pending id (dialog false) s = refl

skip_step :
    (id : Text) (x : Step) (before : Option ContainerActionType)
    → is_of id x ≡ false
    → after_step id x before ≡ before
skip_step id (began t c) before h = rw h refl
skip_step id (settled c o) before h = rw h refl
skip_step id (confirmed_settled a o) before h = rw h refl
skip_step id (compose_began a g) before h = refl
skip_step id (compose_settled a g o) before h = refl
skip_step id (asked t c) before h = refl
skip_step id (dialog b) before h = refl

from_same :
    (id : Text) (xs : List Step) (s t : Actions)
    → get id s.pending_actions ≡ get id t.pending_actions
    → get id (run xs s).pending_actions ≡ get id (run (filter (is_of id) xs) t).pending_actions
from_same id [] s t h = h
from_same id (x ∷ xs) s t h = elim (Bool-cases (is_of id x)) [
  | inl own ↦ rw own (
      from_same id xs (take_step x s) (take_step x t)
        (take_step-pending id x s ∙ ap (after_step id x) h ∙ sym (take_step-pending id x t)))
  | inr other ↦ rw other (
      from_same id xs (take_step x s) t
        (take_step-pending id x s ∙ skip_step id x (get id s.pending_actions) other ∙ h))
]

-- Whatever actions are on their way at once and in whatever order they settle: what is pending on a
-- row is what that row's own container actions leave there.
pub run-pending :
    (id : Text) (xs : List Step) (s : Actions)
    → get id (run xs s).pending_actions ≡ get id (run (filter (is_of id) xs) s).pending_actions
run-pending id xs s = from_same id xs s s refl

-- A confirmed action that settles takes the dialog away, also one that asks about another row by then:
-- after a confirmation, the dialog closed and a new question, the first action is pending and the new
-- question stands; the end of the first action leaves no question, and nothing pending on its row.
pub confirmed_action_settled-ask :
    (a : ConfirmableAction) (t : ContainerActionType) (c : ContainerInfo) (o : Outcome Text)
    (s : Actions)
    → s.confirm_action ≡ some a
    → let s' = ask t c (handle_confirm_dialog_open_change false (confirm_pending_action s)) in
      let s'' = confirmed_action_settled a o s' in
      (get a.container.id s'.pending_actions ≡ some a.action_type)
      × (s'.confirm_action ≡ some (record { action_type = t; container = c }))
      × (s''.confirm_action ≡ none)
      × (get a.container.id s''.pending_actions ≡ none)
unfolding ask confirm_pending_action confirmed_action_settled handle_confirm_dialog_open_change
    execute_action begin_pending
confirmed_action_settled-ask a t c o s h =
    let s' = ask t c (handle_confirm_dialog_open_change false (confirm_pending_action s)) in
    let same : text_eq a.container.id a.container.id ≡ true =
      (text_eq_iff a.container.id a.container.id).1 refl in
    (
      rw h (get-set a.container.id a.container.id a.action_type s.pending_actions ∙ (rw same refl)),
      refl,
      refl,
      settled-pending a.container.id a.container o s' ∙ (rw same refl),
    )
