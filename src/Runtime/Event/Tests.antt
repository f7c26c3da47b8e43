-- ===== src/Runtime/Event/Tests.antt =====
-- Runs of libs/fm_runtime/fm_runtime/job_events.py at concrete events.
use funnelmanager.Prelude.{
  Option, Text, [], codes, false, none, ok, refl, some, text_eq, true, ℕ, ◌==◌, ◌∷◌, ◌≡◌, ◌⊎◌,
}
use funnelmanager.Prelude.Dicts
use funnelmanager.Prelude.Dicts.{Dict}
use funnelmanager.Runtime.Json.{Json, num, text, Python}
use funnelmanager.Runtime.Event.{
  is_terminal, status_value, JobEvent, running, completed, status_of, parse_status, to_dict,
  from_dict, get_value, meta_of, progress_of, raw_of,
}
use funnelmanager.Runtime.Event.Words.{parse_status_keeps}
use funnelmanager.Runtime.Event.Wire.{IsWired, from_dict-to_dict, from_dict_unknown_status}

abbrev str : Json ℕ → Text
str (text s) = s
str v = codes "?"

abbrev float : Json ℕ → Option ℕ
float (num n) = some n
float v = none

abbrev py : Python ℕ
py = record {
  is_zero = λ n. n == 0;
  str = str;
  float = float;
  dict_of_list = λ vs. none;
  str_text = λ s. refl;
}

abbrev done : JobEvent ℕ
done = record {
  job_id = codes "j1";
  type = codes "embedding";
  user = codes "alice";
  origin = codes "agent";
  actor = codes "mcp";
  status = completed;
  progress = some 1;
  ts = codes "2026";
  exit_status = some (codes "ok");
  meta = (codes "n", num 3) ∷ [];
  raw_status = none;
}

done-IsWired : IsWired py done
unfolding raw_of get_value Dicts.get text_eq
done-IsWired = record {
  float_progress = λ p h. refl;
  has_origin = refl;
  has_ts = refl;
  mirrored = refl;
  mirror = λ raw h. cc;
}

from_dict-to_dict_example : from_dict py (codes "now") (to_dict done) ≡ ok done
from_dict-to_dict_example = from_dict-to_dict py (codes "now") done done-IsWired

abbrev newer : Dict (Json ℕ)
newer =
    (codes "job_id", text (codes "j2"))
    ∷ (codes "status", text (codes "zombie"))
    ∷ (codes "shard", num 4)
    ∷ []

from_dict_unknown_status_example :
    (e : JobEvent ℕ) × (from_dict py (codes "now") newer ≡ ok e)
    × (e.status ≡ running)
    × (e.raw_status ≡ some (codes "zombie"))
    × (Dicts.has e.meta (codes "raw_status") ≡ true)
unfolding get_value Dicts.get text_eq status_of meta_of progress_of
from_dict_unknown_status_example =
    from_dict_unknown_status py (codes "now") newer (codes "zombie") [] none refl refl refl refl

zombie_kept :
    ((parse_status (codes "zombie")).1 ≡ none
      × (codes "zombie" ≡ status_value (parse_status (codes "zombie")).0))
    ⊎ ((parse_status (codes "zombie")).1 ≡ some (codes "zombie")
        × (is_terminal (parse_status (codes "zombie")).0 ≡ false)
        × (status_of (codes "zombie") ≡ none))
zombie_kept = parse_status_keeps (codes "zombie")
