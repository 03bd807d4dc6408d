-- ===== src/Actions.antt =====
-- `useContainerActions` of frontend/src/features/containers/hooks/use-container-actions.ts: what is
-- pending, and the confirmation of stop and remove. An async function is two operations, up to its
-- first await and behind its last.
pub mod Pending
mod Tests
use logdeck.Base.{ℕ, ◌+◌, Bool, true, false, Option, none, some, List, [], ◌∷◌, ◌++◌, if◌then◌else◌}
use logdeck.Base.Text.{Text, text_Key, codes, truthy}
use logdeck.Base.JsMap.{JsMap, set, delete}
use logdeck.LogStream.State.{Failure, error, not_error}
use logdeck.Containers.{ContainerInfo, GroupedContainers}

pub data ContainerActionType : Type 0 where
  start stop restart remove : ContainerActionType

pub data ComposeAction : Type 0 where
  compose_start compose_stop compose_restart : ComposeAction

-- `type` is `stop` or `remove`.
pub record ConfirmableAction : Type 0 where
  pub action_type : ContainerActionType
  pub container : ContainerInfo

-- The notices that are shown. `compose_success` holds what its text is made of.
pub data Toast : Type 0 where
  success failure : Text → Toast
  compose_success : ComposeAction → (succeeded : ℕ) → (project : Text) → Toast

-- How an action comes out: its promise is rejected, or gives a message and then the refetch may fail.
pub data Outcome (R : Type 0) : Type 0 where
  rejected : Failure → Outcome R
  fulfilled : R → (refetch : Option Failure) → Outcome R

pub record Actions : Type 0 where
  pub pending_actions : JsMap Text ContainerActionType
  pub pending_compose_actions : JsMap Text ComposeAction
  pub confirm_action : Option ConfirmableAction
  pub toasts : List Toast

abbrev pub toast : Toast → Actions → Actions
toast t s = record s { toasts = s.toasts ++ t ∷ [] }

unfoldable pub begin_pending : Text → ContainerActionType → Actions → Actions
begin_pending id action_type s = record s { pending_actions = set id action_type s.pending_actions }

unfoldable pub end_pending : Text → Actions → Actions
end_pending id s = record s { pending_actions = delete id s.pending_actions }

unfoldable pub begin_compose_pending : Text → ComposeAction → Actions → Actions
begin_compose_pending project action s = record s {
  pending_compose_actions = set project action s.pending_compose_actions;
}

unfoldable pub end_compose_pending : Text → Actions → Actions
end_compose_pending project s = record s {
  pending_compose_actions = delete project s.pending_compose_actions;
}

-- The `catch` blocks, with the text for what is no error.
abbrev pub report : Text → Failure → Actions → Actions
report fallback (error name message) s = toast (failure message) s
report fallback not_error s = toast (failure fallback) s

abbrev pub report_refetch : Text → Option Failure → Actions → Actions
report_refetch fallback none s = s
report_refetch fallback (some f) s = report fallback f s

abbrev pub container_fallback : Text
container_fallback = codes "Unexpected error while performing container action."

abbrev pub compose_fallback : Text
compose_fallback = codes "Unexpected error while performing compose action."

unfoldable pub notify : Outcome Text → Actions → Actions
notify (rejected f) s = report container_fallback f s
notify (fulfilled message refetch) s =
    report_refetch container_fallback refetch
      (if truthy message then toast (success message) s else s)

unfoldable pub execute_action : ContainerActionType → ContainerInfo → Actions → Actions
unfolding begin_pending
execute_action action_type c s = begin_pending c.id action_type s

unfoldable pub action_settled : ContainerInfo → Outcome Text → Actions → Actions
unfolding end_pending notify
action_settled c outcome s = end_pending c.id (notify outcome s)

-- `results.reduce((sum, result) => sum + result.succeeded, 0)`
abbrev pub sum_succeeded : List ℕ → ℕ → ℕ
sum_succeeded [] sum = sum
sum_succeeded (n ∷ ns) sum = sum_succeeded ns (sum + n)

unfoldable pub notify_compose : ComposeAction → Text → Outcome (List ℕ) → Actions → Actions
notify_compose action project (rejected f) s = report compose_fallback f s
notify_compose action project (fulfilled results refetch) s =
    report_refetch compose_fallback refetch
      (toast (compose_success action (sum_succeeded results 0) project) s)

unfoldable pub execute_compose_action : ComposeAction → GroupedContainers → Actions → Actions
unfolding begin_compose_pending
execute_compose_action action group s = begin_compose_pending group.project action s

unfoldable pub compose_action_settled :
    ComposeAction → GroupedContainers → Outcome (List ℕ) → Actions → Actions
unfolding end_compose_pending notify_compose
compose_action_settled action group outcome s =
    end_compose_pending group.project (notify_compose action group.project outcome s)

-- `stopContainerAction` and `deleteContainerAction`.
unfoldable pub ask : ContainerActionType → ContainerInfo → Actions → Actions
ask action_type c s = record s {
  confirm_action = some (record { action_type = action_type; container = c });
}

unfoldable pub confirm_pending_action : Actions → Actions
unfolding execute_action
confirm_pending_action s = elim s.confirm_action [
  | none ↦ s
  | some a ↦ execute_action a.action_type a.container s
]

-- The end of `confirmPendingAction` for the action that it took.
unfoldable pub confirmed_action_settled : ConfirmableAction → Outcome Text → Actions → Actions
unfolding action_settled
confirmed_action_settled a outcome s = record (action_settled a.container outcome s) {
  confirm_action = none;
}

unfoldable pub handle_confirm_dialog_open_change : Bool → Actions → Actions
handle_confirm_dialog_open_change true s = s
handle_confirm_dialog_open_change false s = record s { confirm_action = none }
