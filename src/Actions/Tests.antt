-- ===== src/Actions/Tests.antt =====
-- Two rows whose actions overlap.
use logdeck.Base.{false, ◌≡◌, refl, none, some, List, [], ◌∷◌, filter}
use logdeck.Base.Text.{Text, text_Key, codes}
use logdeck.Base.JsMap.{get, set, delete}
use logdeck.Containers.{ContainerInfo}
use logdeck.Actions.{
  start, stop, restart, remove, ConfirmableAction, fulfilled, Actions, ask, confirm_pending_action,
  confirmed_action_settled, handle_confirm_dialog_open_change, execute_action, action_settled,
}
use logdeck.Actions.Pending.{
  Step, began, settled, run, take_step, is_of, run-pending, confirmed_action_settled-ask,
}

abbrev row : Text → ContainerInfo
row id = record {
  id = id;
  names = [];
  image = [];
  image_id = [];
  command = [];
  created = 0;
  state = [];
  status = [];
  health = none;
  labels = none;
  host = [];
}

abbrev web : ContainerInfo
web = row (codes "web")

abbrev db : ContainerInfo
db = row (codes "db")

abbrev idle : Actions
idle = record {
  pending_actions = [];
  pending_compose_actions = [];
  confirm_action = none;
  toasts = [];
}

abbrev steps : List Step
steps = began restart web ∷ began start db ∷ settled db (fulfilled (codes "Started") none) ∷ []

web_is_pending : get (codes "web") (run steps idle).pending_actions ≡ some restart
unfolding take_step execute_action action_settled get set delete
web_is_pending = refl

run-pending_example :
    get (codes "web") (run steps idle).pending_actions
    ≡ get (codes "web") (run (filter (is_of (codes "web")) steps) idle).pending_actions
run-pending_example = run-pending (codes "web") steps idle

abbrev question : ConfirmableAction
question = record { action_type = stop; container = web }

confirmed_action_settled-ask_example :
    let s = record idle { confirm_action = some question } in
    let s' = ask remove db (handle_confirm_dialog_open_change false (confirm_pending_action s)) in
    let s'' = confirmed_action_settled question (fulfilled [] none) s' in
    (get (codes "web") s'.pending_actions ≡ some stop)
    × (s'.confirm_action ≡ some (record { action_type = remove; container = db }))
    × (s''.confirm_action ≡ none)
    × (get (codes "web") s''.pending_actions ≡ none)
confirmed_action_settled-ask_example =
    confirmed_action_settled-ask question remove db (fulfilled [] none)
      (record idle { confirm_action = some question }) refl
