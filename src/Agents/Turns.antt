-- ===== src/Agents/Turns.antt =====
-- agents/app/session_manager.py: the buffers of the turns that a session streams. What a coroutine
-- does between two suspensions is one operation, and a time is a number of milliseconds of the
-- monotonic clock. A subscriber holds the buffer itself, so the buffers stand in a store, each at its
-- number, and the dictionary of the turns has the numbers.
pub mod Buffers
pub mod Invariant
pub mod Starts
pub mod Ends
pub mod Serial
pub mod Tests
use funnelmanager.Prelude.{
  Bool, List, Option, Text, [], codes, false, if◌then◌else◌, leb, length, ltb, none, nth, some, suc,
  text_eq, true, zero, ℕ, ◌&&◌, ◌++◌, ◌+◌, ◌-◌, ◌==◌, ◌||◌, ◌∷◌,
}
use funnelmanager.Prelude.Dicts
use funnelmanager.Prelude.Dicts.{Dict}
use funnelmanager.Runtime.Json.{Json, text}

pub data TurnStatus : Type 0 where
  running paused complete error : TurnStatus

module _ (N : Type 0) where
  pub record TurnBuffer : Type 0 where
    pub turn_id : Text
    pub session_id : Text
    pub status : TurnStatus
    pub history : List (Dict (Json N))
    pub created_at : ℕ
    pub finished_at : Option ℕ
    pub subscribers : ℕ
    pub cleanup_handle : Option ℕ

  -- A subscription that is open: the buffer that it holds, its cursor, and the events it has yielded.
  pub record Subscription : Type 0 where
    pub buffer : ℕ
    pub cursor : ℕ
    pub finished : Bool
    pub yielded : List (Dict (Json N))

  pub record SessionTurnManager : Type 0 where
    pub turns : Dict ℕ
    pub active : Dict Text
    pub recent : Dict Text
    pub store : List TurnBuffer

-- `_POST_TURN_TTL_SECONDS` and `_STALE_TURN_MAX_AGE_SECONDS`
abbrev pub post_turn_ttl : ℕ
post_turn_ttl = 90000

abbrev pub resumed : TurnStatus → TurnStatus
resumed paused = running
resumed s = s

-- `if d.get(k) == v: d.pop(k, None)`
unfoldable pub pop_where : Dict Text → Text → Text → Dict Text
pop_where d k v = elim (Dicts.get d k) [
  | none ↦ d
  | some w ↦ if text_eq w v then Dicts.pop d k else d
]

module _ {N : Type 0} where
  unfoldable pub new : SessionTurnManager N
  new = record { turns = []; active = []; recent = []; store = [] }

  -- The buffer at a number, and an assignment to its fields.
  abbrev pub buffer_at : SessionTurnManager N → ℕ → Option (TurnBuffer N)
  buffer_at m n = nth m.store n

  unfoldable pub set_nth : List (TurnBuffer N) → ℕ → TurnBuffer N → List (TurnBuffer N)
  set_nth [] n b = []
  set_nth (a ∷ bs) zero b = b ∷ bs
  set_nth (a ∷ bs) (suc n) b = a ∷ set_nth bs n b

  abbrev pub set_buffer : ℕ → TurnBuffer N → SessionTurnManager N → SessionTurnManager N
  set_buffer n b m = record m { store = set_nth m.store n b }

  -- `self._turns.get(turn_id)`: the number of the turn's buffer, with the buffer
  unfoldable pub find_turn : SessionTurnManager N → Text → Option (ℕ × TurnBuffer N)
  find_turn m turn_id = elim (Dicts.get m.turns turn_id) [
    | none ↦ none
    | some n ↦ elim (buffer_at m n) [ none ↦ none | some b ↦ some (n, b) ]
  ]

  -- `get`
  abbrev pub get_turn : SessionTurnManager N → Text → Option (ℕ × TurnBuffer N)
  get_turn = find_turn

  -- `_schedule_expiry`: the time at which the new timer fires
  unfoldable pub schedule_expiry : ℕ → Option ℕ → TurnBuffer N → TurnBuffer N
  schedule_expiry now delay b = record b {
    cleanup_handle = some (
        now + (elim delay [
          | some d ↦ d
          | none ↦ elim b.finished_at [
            | some at ↦ post_turn_ttl - (now - at)
            | none ↦ post_turn_ttl - (now - b.created_at)
          ]
        ]));
  }

  abbrev pub new_buffer : ℕ → Text → Text → TurnBuffer N
  new_buffer now session_id turn_id = record {
    turn_id = turn_id;
    session_id = session_id;
    status = running;
    history = [];
    created_at = now;
    finished_at = none;
    subscribers = 0;
    cleanup_handle = none;
  }

  -- `active_turn_for_session`, and `latest_turn_for_session` over the recent turns
  unfoldable pub buffered : Dict Text → Text → SessionTurnManager N → Option Text
  buffered d session_id m = elim (Dicts.get d session_id) [
    | none ↦ none
    | some turn_id ↦ if Dicts.has m.turns turn_id then some turn_id else none
  ]

  abbrev pub active_turn_for_session : Text → SessionTurnManager N → Option Text
  active_turn_for_session session_id m = buffered m.active session_id m

  abbrev pub latest_turn_for_session : Text → SessionTurnManager N → Option Text
  latest_turn_for_session session_id m = buffered m.recent session_id m

  unfoldable pub active_status : Text → SessionTurnManager N → Option TurnStatus
  active_status session_id m = elim (Dicts.get m.active session_id) [
    | none ↦ none
    | some turn_id ↦ elim (find_turn m turn_id) [ none ↦ none | some (n, b) ↦ some b.status ]
  ]

  abbrev pub started : ℕ → Text → Text → SessionTurnManager N → SessionTurnManager N
  started now session_id turn_id m = record {
    turns = Dicts.put m.turns turn_id (length m.store);
    active = Dicts.put m.active session_id turn_id;
    recent = Dicts.put m.recent session_id turn_id;
    store =
        m.store
        ++ schedule_expiry now (some post_turn_ttl) (new_buffer now session_id turn_id) ∷ [];
  }

  -- `start_turn`: `none` where it raises
  unfoldable pub start_turn : ℕ → Text → Text → SessionTurnManager N → Option (SessionTurnManager N)
  start_turn now session_id turn_id m = elim (active_turn_for_session session_id m) [
    | some existing ↦ none
    | none ↦ some (started now session_id turn_id m)
  ]

  -- `event.get("type") == name`
  abbrev pub has_type : Dict (Json N) → Text → Bool
  has_type event name = elim (Dicts.get event (codes "type")) [
    | some (text t) ↦ text_eq t name
    | _ ↦ false
  ]

  abbrev pub status_after : Dict (Json N) → TurnStatus → TurnStatus
  status_after event s =
      if has_type event (codes "approval_required")
      then paused
      else if has_type event (codes "text_delta")
          || (has_type event (codes "thinking_delta")
              || (has_type event (codes "tool_call") || has_type event (codes "tool_result")))
      then resumed s
      else s

  unfoldable pub publish : Text → Dict (Json N) → SessionTurnManager N → SessionTurnManager N
  publish turn_id event m = elim (find_turn m turn_id) [
    | none ↦ m
    | some (n, b) ↦
        set_buffer n
          (record b { history = b.history ++ event ∷ []; status = status_after event b.status }) m
  ]

  unfoldable pub finish : ℕ → Text → TurnStatus → SessionTurnManager N → SessionTurnManager N
  finish now turn_id status m = elim (find_turn m turn_id) [
    | none ↦ m
    | some (n, b) ↦
        let b' : TurnBuffer N = record b { status = status; finished_at = some now } in
        set_buffer n (schedule_expiry now none b')
          (record m { active = pop_where m.active b.session_id turn_id })
  ]

  -- `subscribe` at its start: `none` where the turn is unknown and one error line is all it yields
  unfoldable pub subscribe :
      Text → SessionTurnManager N → Option (SessionTurnManager N × Subscription N)
  subscribe turn_id m = elim (find_turn m turn_id) [
    | none ↦ none
    | some (n, b) ↦ some (
      set_buffer n (record b { subscribers = suc b.subscribers }) m,
      record { buffer = n; cursor = 0; finished = false; yielded = [] },
    )
  ]

  -- `_fire`
  unfoldable pub fire : ℕ → SessionTurnManager N → SessionTurnManager N
  fire n m = elim (buffer_at m n) [
    | none ↦ m
    | some b ↦ set_buffer n (record b { cleanup_handle = none }) m
  ]

  unfoldable pub drop_turn : ℕ → TurnBuffer N → SessionTurnManager N → SessionTurnManager N
  drop_turn n b m = record {
    turns = Dicts.pop m.turns b.turn_id;
    active = pop_where m.active b.session_id b.turn_id;
    recent = pop_where m.recent b.session_id b.turn_id;
    store = set_nth m.store n (record b { cleanup_handle = none; history = [] });
  }

  -- the time from which `_expire` drops a buffer that nobody reads
  abbrev pub drop_time : TurnBuffer N → ℕ
  drop_time b = elim b.finished_at [
    | none ↦ b.created_at + post_turn_ttl
    | some at ↦ at + post_turn_ttl
  ]

  unfoldable pub expire : ℕ → Text → SessionTurnManager N → SessionTurnManager N
  expire now turn_id m = elim (find_turn m turn_id) [
    | none ↦ m
    | some (n, b) ↦
        if ltb 0 b.subscribers
        then set_buffer n (schedule_expiry now (some post_turn_ttl) b) m
        else if ltb now (drop_time b)
        then set_buffer n (schedule_expiry now none b) m
        else drop_turn n b m
  ]

  -- the events of `history[cursor:]`
  abbrev pub rest_of : ℕ → List (Dict (Json N)) → List (Dict (Json N))
  rest_of zero es = es
  rest_of (suc n) [] = []
  rest_of (suc n) (e ∷ es) = rest_of n es

  -- One pass of the loop of `subscribe`, which is over where the turn had finished and nothing is new.
  unfoldable pub read_turn : SessionTurnManager N → Subscription N → Subscription N
  read_turn m s = elim (buffer_at m s.buffer) [
    | none ↦ s
    | some b ↦ record s {
      cursor = length b.history;
      finished = elim b.finished_at [ none ↦ false | some _ ↦ true ];
      yielded = s.yielded ++ rest_of s.cursor b.history;
    }
  ]

  unfoldable pub read_ends : SessionTurnManager N → Subscription N → Bool
  read_ends m s = elim (buffer_at m s.buffer) [
    | none ↦ false
    | some b ↦ s.finished && leb (length b.history) s.cursor
  ]

  abbrev pub closed : ℕ → TurnBuffer N → TurnBuffer N
  closed now b =
      if b.subscribers == 0
      then elim b.finished_at [ none ↦ b | some _ ↦ schedule_expiry now none b ]
      else b

  -- `subscribe` at its end, however it ends
  unfoldable pub close : ℕ → ℕ → SessionTurnManager N → SessionTurnManager N
  close now n m = elim (buffer_at m n) [
    | none ↦ m
    | some b ↦ set_buffer n (closed now (record b { subscribers = b.subscribers - 1 })) m
  ]
