-- ===== src/EnvVariables/Editor.antt =====
-- The editor of a container's environment variables, and its callbacks: environment-variables.tsx.
use logdeck.Base.{
  ℕ, Bool, true, false, not, ◌&&◌, Option, none, some, List, [], ◌∷◌, ◌++◌, nat_eq, any, length,
  if◌then◌else◌,
}
use logdeck.Base.Text.{Text, text_Key, codes, text_eq, truthy, includes, trim, newline}
use logdeck.Base.JsMap.{JsMap, get, set, delete}
use logdeck.LogEntries.{or_null}
use logdeck.EnvVariables.{strip_quotes, split_equals, parse_env_file}

pub record UpdateEnvResult : Type 0 where
  pub new_container_id : Text
  pub coolify_synced : Option Bool
  pub coolify_error : Option Text

-- The messages of the toasts, with what they show.
pub data Notice : Type 0 where
  updated : Notice
  updated_and_synced : Notice
  sync_failed : Text → Notice
  update_failed : Text → Notice
  no_pairs_found : Notice
  imported_from_text : ℕ → Notice
  imported_from_file : ℕ → Notice
  key_already_exists : Notice
  key_cannot_be_empty : Notice
  file_not_parsed : Notice

-- What the editor calls: a query's data declared out of date, the container's new id handed on, the
-- update begun.
pub data Call : Type 0 where
  invalidate_container_env : Text → Call
  invalidate_containers : Call
  container_id_changed : Text → Call
  mutate : JsMap Text Text → Call
  notify : Notice → Call

-- The state of the component, the data of its query, and the calls so far.
pub record Editor : Type 0 where
  pub is_editing : Bool
  pub edited_env : JsMap Text Text
  pub deleted_keys : List Text
  pub new_key : Text
  pub new_value : Text
  pub show_add_new : Bool
  pub show_confirm_dialog : Bool
  pub modified_keys : List Text
  pub show_upload_preview : Bool
  pub parsed_env_file : JsMap Text Text
  pub env_variables : Option (JsMap Text Text)
  pub calls : List Call

abbrev call : Call → Editor → Editor
call c s = record s { calls = s.calls ++ c ∷ [] }

-- A `Set` of texts in the order in which they were added.
abbrev pub contains : Text → List Text → Bool
contains k ks = any (text_eq k) ks

abbrev pub add_key : Text → List Text → List Text
add_key k ks = if contains k ks then ks else ks ++ k ∷ []

abbrev pub add_keys : List Text → List Text → List Text
add_keys [] ks = ks
add_keys (j ∷ js) ks = add_keys js (add_key j ks)

abbrev pub object_keys : JsMap Text Text → List Text
object_keys [] = []
object_keys ((k, v) ∷ m) = k ∷ object_keys m

-- `{ ...prev, ...next }`
unfoldable pub spread : JsMap Text Text → JsMap Text Text → JsMap Text Text
spread prev [] = prev
spread prev ((k, v) ∷ next) = spread (set k v prev) next

unfoldable pub handle_edit : Editor → Editor
handle_edit s = record s {
  edited_env = or_null s.env_variables [];
  deleted_keys = [];
  modified_keys = [];
  is_editing = true;
}

unfoldable pub handle_cancel : Editor → Editor
handle_cancel s = record s {
  is_editing = false;
  edited_env = [];
  deleted_keys = [];
  modified_keys = [];
  show_add_new = false;
  new_key = [];
  new_value = [];
}

unfoldable pub handle_save : Editor → Editor
handle_save s = record s { show_confirm_dialog = true }

abbrev pub delete_keys : List Text → JsMap Text Text → JsMap Text Text
delete_keys [] env = env
delete_keys (k ∷ ks) env = delete_keys ks (delete k env)

unfoldable pub final_env : Editor → JsMap Text Text
final_env s = delete_keys s.deleted_keys s.edited_env

unfoldable pub handle_confirm_update : Editor → Editor
unfolding final_env
handle_confirm_update s = record (call (mutate (final_env s)) s) { show_confirm_dialog = false }

-- The dialog closes or opens itself.
unfoldable pub set_show_confirm_dialog : Bool → Editor → Editor
set_show_confirm_dialog shown s = record s { show_confirm_dialog = shown }

unfoldable pub handle_delete : Text → Editor → Editor
handle_delete key s = record s { deleted_keys = add_key key s.deleted_keys }

unfoldable pub handle_value_change : Text → Text → Editor → Editor
handle_value_change key value s = record s { edited_env = set key value s.edited_env }

-- The focus of the value's input is left out.
unfoldable pub handle_new_key_change : Text → Editor → Editor
unfolding split_equals strip_quotes
handle_new_key_change raw_value s = elim (split_equals raw_value) [
  | none ↦ record s { new_key = raw_value }
  | some (key, tail) ↦ record s {
    new_key = trim key;
    new_value = if truthy tail then strip_quotes tail else s.new_value;
  }
]

-- `{ ...prev, ...parsed }` with its keys marked as modified.
abbrev pub import_env : JsMap Text Text → Editor → Editor
import_env env s = record s {
  edited_env = spread s.edited_env env;
  modified_keys = add_keys (object_keys env) s.modified_keys;
}

abbrev pub close_add_new : Editor → Editor
close_add_new s = record s { new_key = []; new_value = []; show_add_new = false }

abbrev pub imported : JsMap Text Text → Editor → Editor
imported parsed s =
    if nat_eq (length parsed) 0
    then call (notify no_pairs_found) s
    else call (notify (imported_from_text (length parsed))) (close_add_new (import_env parsed s))

unfoldable pub handle_key_paste : Text → Editor → Editor
unfolding parse_env_file spread
handle_key_paste text s =
    if includes text (newline ∷ []) then imported (parse_env_file text) s else s

-- The properties that every plain object has from `Object.prototype`.
abbrev pub inherited_names : List Text
inherited_names =
    codes "__proto__"
    ∷ codes "__defineGetter__"
    ∷ codes "__defineSetter__"
    ∷ codes "__lookupGetter__"
    ∷ codes "__lookupSetter__"
    ∷ codes "constructor"
    ∷ codes "hasOwnProperty"
    ∷ codes "isPrototypeOf"
    ∷ codes "propertyIsEnumerable"
    ∷ codes "toLocaleString"
    ∷ codes "toString"
    ∷ codes "valueOf"
    ∷ []

-- Whether `env[key]` is truthy: a value of its own that is not empty, or what is inherited.
abbrev pub is_taken : Text → JsMap Text Text → Bool
is_taken key env = elim (get key env) [ none ↦ contains key inherited_names | some v ↦ truthy v ]

unfoldable pub handle_add_new : Editor → Editor
handle_add_new s =
    if truthy (trim s.new_key) && not (is_taken s.new_key s.edited_env)
    then close_add_new (record s {
      edited_env = set s.new_key s.new_value s.edited_env;
      modified_keys = add_key s.new_key s.modified_keys;
    })
    else if is_taken s.new_key s.edited_env
    then call (notify key_already_exists) s
    else call (notify key_cannot_be_empty) s

-- `reader.onload`: `none` for a result that is not a text.
unfoldable pub file_loaded : Option Text → Editor → Editor
unfolding parse_env_file
file_loaded none s = call (notify file_not_parsed) s
file_loaded (some content) s = record s {
  parsed_env_file = parse_env_file content;
  show_upload_preview = true;
}

unfoldable pub handle_confirm_upload : Editor → Editor
unfolding spread
handle_confirm_upload s =
    call (notify (imported_from_file (length s.parsed_env_file)))
      (record (import_env s.parsed_env_file s) {
        show_upload_preview = false;
        parsed_env_file = [];
      })

unfoldable pub handle_cancel_upload : Editor → Editor
handle_cancel_upload s = record s { show_upload_preview = false; parsed_env_file = [] }

-- The notice of a finished update. The text of `sync_failed` is empty where the toast shows its own.
abbrev success_notice : UpdateEnvResult → Notice
success_notice result = elim result.coolify_synced [
  | none ↦ updated
  | some b ↦ if b then updated_and_synced else sync_failed (or_null result.coolify_error [])
]

unfoldable pub on_success : (container_id : Text) → UpdateEnvResult → Editor → Editor
on_success container_id result s = call (notify (success_notice result)) (record s {
  is_editing = false;
  edited_env = [];
  deleted_keys = [];
  modified_keys = [];
  calls =
      s.calls
      ++ invalidate_container_env container_id
        ∷ invalidate_container_env result.new_container_id
        ∷ invalidate_containers
        ∷ container_id_changed result.new_container_id
        ∷ [];
})

unfoldable pub on_error : Text → Editor → Editor
on_error message s = call (notify (update_failed message)) s
