-- ===== src/Jobs/Store/Tests.antt =====
-- Runs of jobs/app/store.py at concrete events.
use funnelmanager.Prelude.{
  List, Option, Text, [], codes, if◌then◌else◌, none, refl, some, text_eq, ℕ, ◌==◌, ◌∷◌, ◌≡◌, ◌⊎◌,
}
use funnelmanager.Runtime.Json.{num}
use funnelmanager.Runtime.Event.{JobEvent, JobStatus, running, completed, status_of}
use funnelmanager.Calendar.{DateTime, aware}
use funnelmanager.Jobs.Store.{
  Job, Table, applied, dropped, find, save, new_row, assign, apply_row, apply_event, run, guards,
  order_guard, parse_ts,
}
use funnelmanager.Jobs.Store.Row.{IsValid, assign-IsValid, Later, apply_row-IsValid}
use funnelmanager.Jobs.Store.Replay.{SameRow, replay_same}
use funnelmanager.Jobs.Store.Runs.{AllValid, nil-AllValid, save-AllValid, run-Later}

-- A clock of one letter, with `-` for a text that is no time.
abbrev iso : Text → Option DateTime
iso [] = none
iso (c ∷ s) = if c == b'-' then none else some (aware c)

abbrev event : JobStatus → Text → JobEvent ℕ
event s ts = record {
  job_id = codes "j1";
  type = codes "apollo_search";
  user = codes "alice";
  origin = codes "user";
  actor = [];
  status = s;
  progress = some 1;
  ts = ts;
  exit_status = none;
  meta = (codes "k", num 1) ∷ [];
  raw_status = none;
}

abbrev app : Text
app = codes "search"

abbrev done_row : Job ℕ
done_row = assign (aware b'b') (event completed (codes "b")) (new_row app (codes "j1"))

abbrev done_table : Table ℕ
done_table = done_row ∷ []

-- A late `running` event does not lift a completed job.
late_running : (apply_event iso (aware 0) done_table app (event running (codes "c"))).1 ≡ dropped
unfolding apply_event apply_row guards find text_eq assign new_row status_of parse_ts
late_running = refl

-- An event without a readable time is dropped where one was applied.
no_time :
    (apply_event iso
      (aware 0)
      (assign (aware b'b') (event running (codes "b")) (new_row app (codes "j1")) ∷ [])
      app
      (event running (codes "-"))).1
    ≡ dropped
unfolding apply_event apply_row guards order_guard find text_eq assign new_row status_of parse_ts
no_time = refl

first_valid : AllValid done_table
unfolding save
first_valid =
    save-AllValid [] done_row nil-AllValid
      (assign-IsValid (aware b'b') (event completed (codes "b")) (new_row app (codes "j1")))

abbrev late : List (DateTime × Text × JobEvent ℕ)
late = (aware 0, app, event running (codes "c")) ∷ (aware 1, app, event completed (codes "a")) ∷ []

run-Later_example :
    (row : Job ℕ) × (find (run iso done_table late) app (codes "j1") ≡ some row)
    × IsValid row
    × Later done_row row
unfolding find text_eq assign new_row
run-Later_example = run-Later iso done_table late app (codes "j1") done_row first_valid refl

replay_same_example :
    (row : Job ℕ) × (apply_row
        (aware 7)
        (some (aware b'b'))
        app
        (event completed (codes "b"))
        (some done_row)
      ≡ applied row)
    × SameRow row done_row
replay_same_example =
    replay_same (aware b'b') (event completed (codes "b")) (new_row app (codes "j1")) (aware 7) app

apply_row-IsValid_example :
    ((row : Job ℕ) × (apply_row
          (aware 0)
          (some (aware b'c'))
          app
          (event running (codes "c"))
          (some done_row)
        ≡ applied row)
      × IsValid row
      × Later done_row row)
    ⊎ (apply_row (aware 0) (some (aware b'c')) app (event running (codes "c")) (some done_row)
        ≡ dropped)
apply_row-IsValid_example =
    apply_row-IsValid (some (aware b'c')) (event running (codes "c")) done_row
      (assign-IsValid (aware b'b') (event completed (codes "b")) (new_row app (codes "j1")))
      (aware 0) app
