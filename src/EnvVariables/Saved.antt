-- ===== src/EnvVariables/Saved.antt =====
-- What an update sends to the server, after any editing.
use logdeck.Base.{
  Bool, true, false, not, ◌&&◌, ◌||◌, ◌≡◌, refl, sym, ap, ◌∙◌, Option, none, some, List, [], ◌∷◌,
  ◌++◌, any, nat_eq, length, Bool-cases, Option-cases, inl, inr, arith, if◌then◌else◌,
}
use logdeck.Base.Text.{Text, text_Key, text_eq, text_eq_iff, truthy, includes, trim, newline}
use logdeck.Base.JsMap.{JsMap, get, set, delete, get-set, get-delete}
use logdeck.LogEntries.{or_null}
use logdeck.EnvVariables.{split_equals, parse_env_file}
use logdeck.EnvVariables.Editor.{
  Editor, mutate, contains, add_key, spread, handle_edit, delete_keys, final_env,
  handle_confirm_update, handle_delete, handle_value_change, handle_new_key_change,
  handle_key_paste, inherited_names, is_taken, handle_add_new, imported, file_loaded,
  handle_confirm_upload, handle_cancel_upload,
}

-- What the user does between the edit button and the save button. The input of the value, the buttons
-- that open and close the new row, and the preview dialog set one field each.
pub data EditStep : Type 0 where
  delete_variable : Text → EditStep
  change_value : Text → Text → EditStep
  type_key : Text → EditStep
  type_value : Text → EditStep
  paste : Text → EditStep
  add_new : EditStep
  show_new : Bool → EditStep
  load_file : Option Text → EditStep
  confirm_upload : EditStep
  cancel_upload : EditStep
  show_preview : Bool → EditStep

-- The cross of the new row also empties its inputs.
abbrev show_row : Bool → Editor → Editor
show_row true s = record s { show_add_new = true }
show_row false s = record s { show_add_new = false; new_key = []; new_value = [] }

abbrev pub perform : EditStep → Editor → Editor
perform (delete_variable key) s = handle_delete key s
perform (change_value key value) s = handle_value_change key value s
perform (type_key raw) s = handle_new_key_change raw s
perform (type_value value) s = record s { new_value = value }
perform (paste text) s = handle_key_paste text s
perform add_new s = handle_add_new s
perform (show_new shown) s = show_row shown s
perform (load_file content) s = file_loaded content s
perform confirm_upload s = handle_confirm_upload s
perform cancel_upload s = handle_cancel_upload s
perform (show_preview shown) s = record s { show_upload_preview = shown }

abbrev pub run : List EditStep → Editor → Editor
run [] s = s
run (x ∷ xs) s = run xs (perform x s)

-- A new row can be added if its key is not blank, and is either a variable whose value is empty, or no
-- variable and not a name that every object inherits.
abbrev pub can_add : Text → JsMap Text Text → Bool
can_add key env = truthy (trim key) && elim (get key env) [
  | none ↦ not (any (text_eq key) inherited_names)
  | some v ↦ nat_eq (length v) 0
]

-- The variables that a step writes: those of a text that is pasted or a file that is confirmed, a value
-- that is typed, and a new row that can be added.
abbrev pub writes : EditStep → Editor → JsMap Text Text
writes (change_value key value) s = (key, value) ∷ []
writes (paste text) s = if includes text (newline ∷ []) then parse_env_file text else []
writes add_new s = if can_add s.new_key s.edited_env then (s.new_key, s.new_value) ∷ [] else []
writes confirm_upload s = s.parsed_env_file
writes _ s = []

abbrev pub all_writes : List EditStep → Editor → JsMap Text Text
all_writes [] s = []
all_writes (x ∷ xs) s = writes x s ++ all_writes xs (perform x s)

abbrev pub deletes : Text → EditStep → Bool
deletes k (delete_variable key) = text_eq k key
deletes k _ = false

-- The last value written under a key, or what was there before.
abbrev pub last_value : Text → Option Text → JsMap Text Text → Option Text
last_value k before [] = before
last_value k before ((j, v) ∷ w) = last_value k (if text_eq j k then some v else before) w

get-spread : (k : Text) (m w : JsMap Text Text) → get k (spread m w) ≡ last_value k (get k m) w
unfolding spread
get-spread k m [] = refl
get-spread k m ((j, v) ∷ w) =
    get-spread k (set j v m) w ∙ ap (λ o. last_value k o w) (get-set j k v m)

spread-append : (m v w : JsMap Text Text) → spread m (v ++ w) ≡ spread (spread m v) w
unfolding spread
spread-append m [] w = refl
spread-append m ((j, x) ∷ v) w = spread-append (set j x m) v w

get-delete_keys :
    (k : Text) (ks : List Text) (m : JsMap Text Text)
    → get k (delete_keys ks m) ≡ (if contains k ks then none else get k m)
get-delete_keys k [] m = refl
get-delete_keys k (j ∷ ks) m =
    get-delete_keys k ks (delete j m)
    ∙ (rw (get-delete j k m) (ground (arith, text_eq_iff j k, text_eq_iff k j)))

contains-append :
    (k : Text) (js ks : List Text) → contains k (js ++ ks) ≡ (contains k js || contains k ks)
contains-append k [] ks = refl
contains-append k (j ∷ js) ks = ground (arith, contains-append k js ks)

contains-add_key :
    (k j : Text) (ks : List Text) → contains k (add_key j ks) ≡ (contains k ks || text_eq k j)
contains-add_key k j ks = ground (arith, contains-append k ks (j ∷ []), text_eq_iff k j)

-- What is edited changed by these writes, what is deleted by these keys.
record Changed (w : JsMap Text Text) (d : Text → Bool) (s t : Editor) : Type 0 where
  edited : t.edited_env ≡ spread s.edited_env w
  deleted : (k : Text) → contains k t.deleted_keys ≡ (contains k s.deleted_keys || d k)

abbrev none_deleted : Text → Bool
none_deleted k = false

only_writes :
    {w : JsMap Text Text} {s t : Editor}
    → t.edited_env ≡ spread s.edited_env w
    → t.deleted_keys ≡ s.deleted_keys
    → Changed w none_deleted s t
only_writes {s = s} edited same = record {
  edited = edited;
  deleted = λ k. ap (contains k) same ∙ or-false (contains k s.deleted_keys);
}
  where
    or-false : (b : Bool) → b ≡ (b || false)
    or-false b = ground arith

Changed-imported : (m : JsMap Text Text) (s : Editor) → Changed m none_deleted s (imported m s)
unfolding spread
Changed-imported [] s = only_writes refl refl
Changed-imported ((k, v) ∷ m) s =
    let e : nat_eq (length ((k, v) ∷ m)) 0 ≡ false = ground arith in rw e (only_writes refl refl)

Changed-type_key :
    (raw : Text) (s : Editor) → Changed [] none_deleted s (handle_new_key_change raw s)
unfolding handle_new_key_change spread
Changed-type_key raw s = elim (Option-cases (split_equals raw)) [
  | inl e ↦ rw (e, handle_new_key_change) (only_writes refl refl)
  | inr ((key, tail), e) ↦ rw (e, handle_new_key_change) (only_writes refl refl)
]

Changed-paste :
    (text : Text) (s : Editor)
    → Changed (writes (paste text) s) none_deleted s (handle_key_paste text s)
unfolding handle_key_paste spread
Changed-paste text s = elim (Bool-cases (includes text (newline ∷ []))) [
  | inr e ↦ rw e (only_writes refl refl)
  | inl e ↦ rw e (Changed-imported (parse_env_file text) s)
]

can_add_lem :
    (key : Text) (env : JsMap Text Text)
    → can_add key env ≡ (truthy (trim key) && not (is_taken key env))
can_add_lem key env = tested (truthy (trim key)) (get key env)
  where
    tested :
        (named : Bool) (value : Option Text)
        → (named && elim value [
          | none ↦ not (any (text_eq key) inherited_names)
          | some v ↦ nat_eq (length v) 0
        ])
          ≡ (named && not (elim value [ none ↦ contains key inherited_names | some v ↦ truthy v ]))
    tested named none = refl
    tested named (some []) = refl
    tested named (some (c ∷ v)) =
        let q : nat_eq (length (c ∷ v)) 0 ≡ false = ground arith in rw q refl

Changed-add_new : (s : Editor) → Changed (writes add_new s) none_deleted s (handle_add_new s)
unfolding handle_add_new spread
Changed-add_new s =
    elim (Bool-cases (truthy (trim s.new_key) && not (is_taken s.new_key s.edited_env))) [
      | inl e ↦ rw (can_add_lem s.new_key s.edited_env, e) (only_writes refl refl)
      | inr e ↦ elim (Bool-cases (is_taken s.new_key s.edited_env)) [
        | inl q ↦ rw (can_add_lem s.new_key s.edited_env, e, q) (only_writes refl refl)
        | inr q ↦ rw (can_add_lem s.new_key s.edited_env, e, q) (only_writes refl refl)
      ]
    ]

Changed-perform :
    (x : EditStep) (s : Editor) → Changed (writes x s) (λ k. deletes k x) s (perform x s)
unfolding handle_delete handle_value_change file_loaded handle_confirm_upload handle_cancel_upload
    spread
Changed-perform (delete_variable key) s = record {
  edited = refl;
  deleted = λ k. contains-add_key k key s.deleted_keys;
}
Changed-perform (change_value key value) s = only_writes refl refl
Changed-perform (type_key raw) s = Changed-type_key raw s
Changed-perform (type_value value) s = only_writes refl refl
Changed-perform (paste text) s = Changed-paste text s
Changed-perform add_new s = Changed-add_new s
Changed-perform (show_new true) s = only_writes refl refl
Changed-perform (show_new false) s = only_writes refl refl
Changed-perform (load_file none) s = only_writes refl refl
Changed-perform (load_file (some content)) s = only_writes refl refl
Changed-perform confirm_upload s = only_writes refl refl
Changed-perform cancel_upload s = only_writes refl refl
Changed-perform (show_preview shown) s = only_writes refl refl

abbrev pub was_deleted : Text → List EditStep → Bool
was_deleted k xs = any (deletes k) xs

Changed-run :
    (xs : List EditStep) (s : Editor)
    → Changed (all_writes xs s) (λ k. was_deleted k xs) s (run xs s)
unfolding spread
Changed-run [] s = only_writes refl refl
Changed-run (x ∷ xs) s =
    let one = Changed-perform x s in
    let rest = Changed-run xs (perform x s) in
    record {
      edited =
          rest.edited
          ∙ ap (λ m. spread m (all_writes xs (perform x s))) one.edited
          ∙ sym (spread-append s.edited_env (writes x s) (all_writes xs (perform x s)));
      deleted = λ k. rest.deleted k ∙ (rw (one.deleted k) (ground arith));
    }

-- After any editing, a confirmed update sends, in one request, for each variable: nothing if it was
-- deleted at any time since the edit began, also if it was written again later; else the value written
-- last, or the one that it had before. A value is written by typing it, by a paste, by a file whose
-- upload is confirmed, or by a new row, unless its key is blank, has a value that is not empty, or is no
-- variable but a name that every object inherits.
pub handle_confirm_update-run :
    (xs : List EditStep) (s : Editor)
    → let t = run xs (handle_edit s) in
      ((handle_confirm_update t).calls ≡ t.calls ++ mutate (final_env t) ∷ [])
      × ((k : Text)
          → get k (final_env t) ≡ (
              if was_deleted k xs
              then none
              else last_value k
                  (get k (or_null s.env_variables []))
                  (all_writes xs (handle_edit s))))
unfolding handle_confirm_update final_env handle_edit
handle_confirm_update-run xs s =
    let t = run xs (handle_edit s) in
    let h = Changed-run xs (handle_edit s) in
    let value =
      λ (k : Text). get-spread k (or_null s.env_variables []) (all_writes xs (handle_edit s)) in
    (
      refl,
      λ k.
          get-delete_keys k t.deleted_keys t.edited_env
          ∙ (rw (h.deleted k, h.edited, value k) refl),
    )
