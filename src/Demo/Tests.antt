-- ===== src/Demo/Tests.antt =====
-- A store of two containers, of which one has a stored record, and the theorems about it applied.
use logdeck.Base.{
  ℕ, ◌+◌, ◌*◌, ◌≤◌, false, ◌≡◌, refl, none, some, [], ◌∷◌, ◌++◌, length, nat_eq, last_n,
  if◌then◌else◌, arith,
}
use logdeck.Base.Text.{Text, text_Key, codes}
use logdeck.Base.JsMap.{get, has}
use logdeck.LogEntries.{LogEntry, info}
use logdeck.Containers.{ContainerInfo}
use logdeck.Demo.Store.{
  StoredContainerRecord, DemoState, find, splice_found, name_of, answers_to, is_record_of,
  get_container_by_id, stored_record_for, max_entries,
}
use logdeck.Demo.Containers.{returned, has_id, remove_container}
use logdeck.Demo.Logs.{array_of}
use logdeck.Demo.History.{flatten_history_pages, fetch_older, page_size}
use logdeck.Demo.Pages.{IsComplete, AllWithin, fetch_page, fetch_older-flatten_history_pages}
use logdeck.Demo.Sharing.{append_lines, array_at, append_log-first}
use logdeck.Demo.Tidy.{holds, IsTidy}
use logdeck.Demo.Requests.{remove, next_line, update_env, run, run-IsTidy}
use logdeck.Demo.Removal.{IsUnknown, remove_container-again}

abbrev container : Text → ContainerInfo
container id = record {
  id = id;
  names = (codes "/" ++ id) ∷ [];
  image = [];
  image_id = [];
  command = [];
  created = 0;
  state = codes "running";
  status = [];
  health = none;
  labels = none;
  host = codes "local";
}

abbrev web : ContainerInfo
web = container (codes "web01")

abbrev db : ContainerInfo
db = container (codes "db001")

abbrev line : ℕ → LogEntry
line n = record {
  timestamp = none;
  level = info;
  message = some (n ∷ []);
  stream = none;
  raw = none;
  fields = none;
  continuation_count = none;
  container_id = none;
  container_name = none;
}

abbrev stored_web : StoredContainerRecord
stored_web = record {
  host = codes "local";
  name = codes "web01";
  compose_project = none;
  image = none;
  removed = false;
  logs = 0;
}

abbrev store : DemoState ℕ
store = record {
  containers = web ∷ db ∷ [];
  stats = [];
  logs = (codes "web01", 0) ∷ [];
  env = [];
  resources = [];
  stored = stored_web ∷ [];
  live_tick = 0;
  arrays = λ a. if nat_eq a 0 then line 1 ∷ [] else [];
  next_array = 1;
  events = [];
}

store-IsTidy : IsTidy store
unfolding has
store-IsTidy k h = ground arith

found : get_container_by_id (codes "web01") store ≡ some web
unfolding get_container_by_id answers_to name_of
found = refl

gone :
    find (answers_to (codes "web01")) (splice_found (has_id (codes "web01")) store.containers)
    ≡ none
unfolding answers_to name_of
gone = refl

logged : get (codes "web01") store.logs ≡ some 0
unfolding get
logged = refl

recorded : stored_record_for web store ≡ some stored_web
unfolding stored_record_for is_record_of name_of
recorded = refl

run-IsTidy_example : IsTidy (
    run
      (λ c tick. line tick)
      ((next_line (codes "web01"), 5)
        ∷ (update_env (codes "web01") [] (codes "9999"), 6)
        ∷ (remove (codes "db001"), 7)
        ∷ [])
      store)
run-IsTidy_example =
    run-IsTidy (λ c tick. line tick)
      ((next_line (codes "web01"), 5)
        ∷ (update_env (codes "web01") [] (codes "9999"), 6)
        ∷ (remove (codes "db001"), 7)
        ∷ [])
      store store-IsTidy

remove_container-again_example :
    let (outcome, t) = remove_container (codes "web01") 7 store in
    (outcome ≡ returned (codes "Removed " ++ name_of web))
    × (holds (codes "web01") t ≡ false)
    × IsUnknown (codes "web01") t
remove_container-again_example = remove_container-again (codes "web01") web 7 store found gone

append_log-first_example :
    let s' = append_lines web (line 2 ∷ line 3 ∷ []) store in
    (array_at s' (get (codes "web01") s'.logs) ≡ last_n max_entries (line 1 ∷ line 2 ∷ line 3 ∷ []))
    × (array_of s' (stored_record_for web s')
        ≡ last_n max_entries (
            if nat_eq 0 0
            then line 1 ∷ line 2 ∷ line 2 ∷ line 3 ∷ []
            else line 1 ∷ line 2 ∷ line 3 ∷ []))
append_log-first_example =
    append_log-first web (line 2) (line 3 ∷ []) store 0 stored_web logged recorded (omega arith)
      (omega arith)

fetch_older-flatten_history_pages_example :
    let pages = fetch_older (fetch_page (some 2) (line 1 ∷ line 2 ∷ line 3 ∷ [])) 4 none in
    (flatten_history_pages pages ≡ line 1 ∷ line 2 ∷ line 3 ∷ [])
    × IsComplete pages
    × AllWithin (page_size (some 2)) pages
    × (length pages * page_size (some 2) ≤ 3 + page_size (some 2))
fetch_older-flatten_history_pages_example =
    fetch_older-flatten_history_pages (some 2) (line 1 ∷ line 2 ∷ line 3 ∷ []) 4 (omega arith)
