-- ===== src/Runtime/Event.antt =====
-- libs/fm_runtime/fm_runtime/job_events.py: the statuses and control actions of a job, and the event
-- on the wire. Direct construction is strict, the decoding of a wire event lenient.
pub mod Words
pub mod Wire
pub mod Tests
use funnelmanager.Prelude.{
  Bool, Option, Result, Text, [], any, codes, err, false, if◌then◌else◌, map, none, ok, some,
  text_eq, true, ◌++◌, ◌/◌, ◌>>=◌, ◌∷◌,
}
use mathlib.Core.Option
use funnelmanager.Prelude.Dicts
use funnelmanager.Prelude.Dicts.{Dict}
use funnelmanager.Runtime.Json.{Json, null, num, text, arr, obj, entries, fields, Python, truthy}

-- `class JobStatus(str, Enum)`
pub data JobStatus : Type 0 where
  queued running paused scheduled completed failed canceled : JobStatus

abbrev pub status_value : JobStatus → Text
status_value queued = codes "queued"
status_value running = codes "running"
status_value paused = codes "paused"
status_value scheduled = codes "scheduled"
status_value completed = codes "completed"
status_value failed = codes "failed"
status_value canceled = codes "canceled"

-- `JobStatus(w)`, with `none` for its ValueError: the members are tried in their order.
unfoldable pub status_of : Text → Option JobStatus
status_of w =
    if text_eq w (codes "queued")
    then some queued
    else if text_eq w (codes "running")
    then some running
    else if text_eq w (codes "paused")
    then some paused
    else if text_eq w (codes "scheduled")
    then some scheduled
    else if text_eq w (codes "completed")
    then some completed
    else if text_eq w (codes "failed")
    then some failed
    else if text_eq w (codes "canceled")
    then some canceled
    else none

-- `TERMINAL_STATUSES`
abbrev pub is_terminal : JobStatus → Bool
is_terminal completed = true
is_terminal failed = true
is_terminal canceled = true
is_terminal _ = false

abbrev pub unknown_status_fallback : JobStatus
unknown_status_fallback = running

-- `JobStatus.parse`: it never raises, and returns an unknown word beside the fallback.
unfoldable pub parse_status : Text → JobStatus × Option Text
parse_status raw = elim (status_of raw) [
  | some s ↦ (s, none)
  | none ↦ (unknown_status_fallback, some raw)
]

pub data JobControlAction : Type 0 where
  pause resume cancel : JobControlAction

abbrev pub action_value : JobControlAction → Text
action_value pause = codes "pause"
action_value resume = codes "resume"
action_value cancel = codes "cancel"

-- `JobControlAction.coerce` of a text, with `none` for its ValueError.
unfoldable pub action_of : Text → Option JobControlAction
action_of w =
    if text_eq w (codes "pause")
    then some pause
    else if text_eq w (codes "resume")
    then some resume
    else if text_eq w (codes "cancel")
    then some cancel
    else none

-- `control_path` of an action: the template with its two fields filled in.
unfoldable pub control_path : Text → JobControlAction → Text
control_path job_id action =
    codes "/internal/jobs/v1/" ++ (job_id ++ (codes "/" ++ action_value action))

pub record JobEvent (N : Type 0) : Type 0 where
  pub job_id : Text
  pub type : Text
  pub user : Text
  pub origin : Text
  pub actor : Text
  pub status : JobStatus
  pub progress : Option N
  pub ts : Text
  pub exit_status : Option Text
  pub meta : Dict (Json N)
  pub raw_status : Option Text

-- What decoding may raise: `float` or `dict` of a value that it does not take.
pub data WireError : Type 0 where
  bad_progress bad_meta : WireError

module _ {N : Type 0} where
  -- `__post_init__` at a status that is a `JobStatus` and a progress that is a float: an unknown word
  -- is mirrored into `meta` unless that has one.
  unfoldable pub post_init : JobEvent N → JobEvent N
  post_init e = elim e.raw_status [
    | none ↦ e
    | some raw ↦ record e { meta = Dicts.set_default e.meta (codes "raw_status") (text raw) }
  ]

  abbrev number_or_null : Option N → Json N
  number_or_null none = null
  number_or_null (some p) = num p

  abbrev exit_entry : Option Text → Dict (Json N)
  exit_entry none = []
  exit_entry (some x) = (codes "exit_status", text x) ∷ []

  -- `to_dict`
  unfoldable pub to_dict : JobEvent N → Dict (Json N)
  to_dict e =
      (codes "job_id", text e.job_id)
      ∷ (codes "type", text e.type)
      ∷ (codes "user", text e.user)
      ∷ (codes "origin", text e.origin)
      ∷ (codes "actor", text e.actor)
      ∷ (codes "status", text (status_value e.status))
      ∷ (codes "progress", number_or_null e.progress)
      ∷ (codes "ts", text e.ts)
      ∷ (codes "meta", obj (fields e.meta))
      ∷ exit_entry e.exit_status

-- the keys of `known` in `from_dict`
unfoldable pub is_known : Text → Bool
is_known k = any (text_eq k) (
    codes "job_id"
    ∷ codes "type"
    ∷ codes "user"
    ∷ codes "origin"
    ∷ codes "actor"
    ∷ codes "status"
    ∷ codes "progress"
    ∷ codes "ts"
    ∷ codes "exit_status"
    ∷ codes "meta"
    ∷ [])

module _ {N : Type 0} (py : Python N) where
  -- `data.get(k)`, where an absent key and a null are the same `None`
  unfoldable pub get_value : Dict (Json N) → Text → Option (Json N)
  get_value d k = elim (Dicts.get d k) [ some null ↦ none | some v ↦ some v | none ↦ none ]

  -- `str(data.get(k) or default)`
  unfoldable pub str_or : Dict (Json N) → Text → Text → Text
  unfolding get_value
  str_or d k default = elim (get_value d k) [
    | some v ↦ if truthy py v then py.str v else default
    | none ↦ default
  ]

  -- `dict(data.get("meta") or {})`
  unfoldable pub meta_of : Option (Json N) → Result WireError (Dict (Json N))
  meta_of (some (obj fs)) = ok (entries fs)
  meta_of (some (arr vs)) =
      if truthy py (arr vs)
      then elim (py.dict_of_list vs) [ some d ↦ ok d | none ↦ err bad_meta ]
      else ok []
  meta_of (some v) = if truthy py v then err bad_meta else ok []
  meta_of none = ok []

  -- the loop that keeps the keys which this version does not know
  unfoldable pub keep_unknown : Dict (Json N) → Dict (Json N) → Dict (Json N)
  unfolding is_known
  keep_unknown meta [] = meta
  keep_unknown meta ((k, v) ∷ d) = keep_unknown (if is_known k then meta else Dicts.put meta k v) d

  unfoldable pub wire_status : Option (Json N) → JobStatus × Option Text
  unfolding parse_status
  wire_status none = (running, none)
  wire_status (some v) = parse_status (py.str v)

  -- `raw_status`: the word just parsed, else one that `meta` carries
  unfoldable pub raw_of : Option Text → Dict (Json N) → Option Text
  unfolding get_value
  raw_of (some raw) meta = some raw
  raw_of none meta = Option.map py.str (get_value meta (codes "raw_status"))

  unfoldable pub progress_of : Option (Json N) → Result WireError (Option N)
  progress_of none = ok none
  progress_of (some v) = elim (py.float v) [ some p ↦ ok (some p) | none ↦ err bad_progress ]

  -- `from_dict`, with the text of the current time
  unfoldable pub from_dict : Text → Dict (Json N) → Result WireError (JobEvent N)
  from_dict now d = do
    m ← meta_of (get_value d (codes "meta"))
    let meta = keep_unknown m d
    let (status, parsed_raw) = wire_status (get_value d (codes "status"))
    progress ← progress_of (get_value d (codes "progress"))
    ok (
        post_init (record {
          job_id = str_or d (codes "job_id") [];
          type = str_or d (codes "type") [];
          user = str_or d (codes "user") [];
          origin = str_or d (codes "origin") (codes "user");
          actor = str_or d (codes "actor") [];
          status = status;
          progress = progress;
          ts = str_or d (codes "ts") now;
          exit_status = Option.map py.str (get_value d (codes "exit_status"));
          meta = meta;
          raw_status = raw_of parsed_raw meta;
        }))
