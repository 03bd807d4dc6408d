-- ===== src/EnvVariables/Tests.antt =====
-- An editor of two variables, and the theorems about it applied.
use logdeck.Base.{
  true, false, not, ◌≡◌, refl, none, some, List, [], ◌∷◌, ◌++◌, filter, map, if◌then◌else◌,
}
use logdeck.Base.Text.{Text, text_Key, codes, is_space, join, newline}
use logdeck.Base.JsMap.{JsMap, get}
use logdeck.EnvVariables.{parse_env_file}
use logdeck.EnvVariables.Editor.{
  Editor, mutate, spread, handle_edit, final_env, handle_confirm_update,
}
use logdeck.EnvVariables.Written.{is_settable, write_line, parse_env_file-write_line}
use logdeck.EnvVariables.Saved.{
  EditStep, delete_variable, change_value, type_key, add_new, run, all_writes, was_deleted,
  last_value, handle_confirm_update-run,
}
use logdeck.EnvVariables.Shown.{env_entries, is_modified, is_left, env_entries_lem}

abbrev variables : JsMap Text Text
variables = (codes "A", codes "1") ∷ (codes "B", codes "2") ∷ []

abbrev editor : Editor
editor = record {
  is_editing = false;
  edited_env = [];
  deleted_keys = [];
  new_key = [];
  new_value = [];
  show_add_new = false;
  show_confirm_dialog = false;
  modified_keys = [];
  show_upload_preview = false;
  parsed_env_file = [];
  env_variables = some variables;
  calls = [];
}

abbrev editing : Editor
editing = record editor {
  is_editing = true;
  edited_env = variables;
  deleted_keys = [];
  modified_keys = codes "B" ∷ [];
}

abbrev steps : List EditStep
steps =
    delete_variable (codes "A")
    ∷ change_value (codes "A") (codes "3")
    ∷ type_key (codes "C=4")
    ∷ add_new
    ∷ []

parse_env_file-write_line_example :
    parse_env_file (join (newline ∷ []) (map write_line variables))
    ≡ spread [] (filter is_settable variables)
unfolding is_space
parse_env_file-write_line_example = parse_env_file-write_line variables refl

handle_confirm_update-run_example :
    let t = run steps (handle_edit editor) in
    ((handle_confirm_update t).calls ≡ t.calls ++ mutate (final_env t) ∷ [])
    × ((k : Text)
        → get k (final_env t) ≡ (
            if was_deleted k steps
            then none
            else last_value k (get k variables) (all_writes steps (handle_edit editor))))
handle_confirm_update-run_example = handle_confirm_update-run steps editor

env_entries_lem_example :
    env_entries editing
    ≡ filter (is_modified editing) (filter (is_left editing) variables)
      ++ filter
          (λ (e : Text × Text). not (is_modified editing e))
          (filter (is_left editing) variables)
env_entries_lem_example = env_entries_lem editing
