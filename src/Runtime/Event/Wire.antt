-- ===== src/Runtime/Event/Wire.antt =====
-- What a wire event keeps (`to_dict` and `from_dict` of job_events.py).
use funnelmanager.Prelude.{
  Option, Option-cases, Text, [], ap, arith, codes, if◌then◌else◌, inl, inr, non_empty, none, ok,
  or_text, refl, some, text_eq, true, ◌∷◌, ◌≡◌,
}
use mathlib.Core.Option
use funnelmanager.Prelude.Dicts
use funnelmanager.Prelude.Dicts.{Dict}
use funnelmanager.Runtime.Json.{Json, num, text, entries-fields, Python, truthy}
use funnelmanager.Runtime.Event.{
  running, status_of, JobEvent, parse_status, post_init, to_dict, get_value, str_or, meta_of,
  keep_unknown, wire_status, raw_of, progress_of, from_dict,
}
use funnelmanager.Runtime.Event.Words.{status_of-status_value}

module _ {N : Type 0} (py : Python N) where
  str_or-text :
      (s default : Text)
      → (if truthy py (text s) then py.str (text s) else default) ≡ or_text s default
  str_or-text [] default = refl
  str_or-text (c ∷ s) default = py.str_text (c ∷ s)

  -- An event is well formed when its progress is a float, its origin and its time are not empty, and
  -- its `raw_status` is the one that its `meta` carries, as `post_init` sees to.
  pub record IsWired (e : JobEvent N) : Type 0 where
    pub float_progress : (p : N) → e.progress ≡ some p → py.float (num p) ≡ some p
    pub has_origin : non_empty e.origin ≡ true
    pub has_ts : non_empty e.ts ≡ true
    pub mirrored : raw_of py none e.meta ≡ e.raw_status
    pub mirror :
        (raw : Text) → e.raw_status ≡ some raw → Dicts.has e.meta (codes "raw_status") ≡ true

  module _ (e : JobEvent N) where
    str_or-to_dict :
        (k : Text) (v default : Text)
        → get_value py (to_dict e) k ≡ some (text v)
        → str_or py (to_dict e) k default ≡ or_text v default
    unfolding str_or
    str_or-to_dict k v default h = rw (h, str_or) (str_or-text v default)

    value-job_id : get_value py (to_dict e) (codes "job_id") ≡ some (text e.job_id)
    unfolding get_value to_dict Dicts.get text_eq
    value-job_id = refl

    value-type : get_value py (to_dict e) (codes "type") ≡ some (text e.type)
    unfolding get_value to_dict Dicts.get text_eq
    value-type = refl

    value-user : get_value py (to_dict e) (codes "user") ≡ some (text e.user)
    unfolding get_value to_dict Dicts.get text_eq
    value-user = refl

    value-origin : get_value py (to_dict e) (codes "origin") ≡ some (text e.origin)
    unfolding get_value to_dict Dicts.get text_eq
    value-origin = refl

    value-actor : get_value py (to_dict e) (codes "actor") ≡ some (text e.actor)
    unfolding get_value to_dict Dicts.get text_eq
    value-actor = refl

    value-ts : get_value py (to_dict e) (codes "ts") ≡ some (text e.ts)
    unfolding get_value to_dict Dicts.get text_eq
    value-ts = refl

    read_status : wire_status py (get_value py (to_dict e) (codes "status")) ≡ (e.status, none)
    unfolding wire_status get_value to_dict Dicts.get text_eq
    read_status = rw (py.str_text) (rw (status_of-status_value e.status, parse_status))

    read_meta : meta_of py (get_value py (to_dict e) (codes "meta")) ≡ ok e.meta
    unfolding meta_of get_value to_dict Dicts.get text_eq
    read_meta = rw (entries-fields e.meta)

    read_known : keep_unknown py e.meta (to_dict e) ≡ e.meta
    unfolding keep_unknown to_dict text_eq
    read_known = ground arith

    read_exit : Option.map py.str (get_value py (to_dict e) (codes "exit_status")) ≡ e.exit_status
    unfolding get_value to_dict Dicts.get text_eq
    read_exit = elim (Option-cases e.exit_status) [
      | inl n ↦ ground arith
      | inr (x, q) ↦ ground (arith, py.str_text x)
    ]

    read_progress :
        IsWired e → progress_of py (get_value py (to_dict e) (codes "progress")) ≡ ok e.progress
    unfolding progress_of get_value to_dict Dicts.get text_eq
    read_progress h = elim (Option-cases e.progress) [
      | inl n ↦ ground arith
      | inr (p, q) ↦ ground (arith, h.float_progress p q)
    ]

    post_init_self : IsWired e → post_init e ≡ e
    unfolding post_init Dicts.set_default
    post_init_self h = elim (Option-cases e.raw_status) [
      | inl n ↦ ground arith
      | inr (raw, q) ↦ ground (arith, h.mirror raw q)
    ]

  or_text-nil : (s : Text) → or_text s [] ≡ s
  or_text-nil [] = refl
  or_text-nil (c ∷ s) = refl

  or_text-non_empty : (s d : Text) → non_empty s ≡ true → or_text s d ≡ s
  or_text-non_empty [] d h = cc
  or_text-non_empty (c ∷ s) d h = refl

  -- Decoding what `to_dict` makes of a well-formed event returns that event, at whatever time.
  pub from_dict-to_dict :
      (now : Text) (e : JobEvent N) → IsWired e → from_dict py now (to_dict e) ≡ ok e
  unfolding from_dict
  from_dict-to_dict now e h =
      rw
        (
          read_meta e,
          read_known e,
          read_status e,
          read_progress e h,
          read_exit e,
          str_or-to_dict e _ _ [] (value-job_id e),
          str_or-to_dict e _ _ [] (value-type e),
          str_or-to_dict e _ _ [] (value-user e),
          str_or-to_dict e _ _ (codes "user") (value-origin e),
          str_or-to_dict e _ _ [] (value-actor e),
          str_or-to_dict e _ _ now (value-ts e),
          or_text-nil e.job_id,
          or_text-nil e.type,
          or_text-nil e.user,
          or_text-nil e.actor,
          or_text-non_empty e.origin (codes "user") h.has_origin,
          or_text-non_empty e.ts now h.has_ts,
          h.mirrored,
        )
        (ap ok (post_init_self e h))

  -- An event whose status word this version does not know is read, and not dropped: it runs, its
  -- `raw_status` is the word, and `meta` has a word too. The hypotheses exclude what `dict` or `float`
  -- raise at: a `meta` or a progress that they do not take.
  pub from_dict_unknown_status :
      (now : Text) (d : Dict (Json N)) (w : Text) (m : Dict (Json N)) (p : Option N)
      → get_value py d (codes "status") ≡ some (text w)
      → status_of w ≡ none
      → meta_of py (get_value py d (codes "meta")) ≡ ok m
      → progress_of py (get_value py d (codes "progress")) ≡ ok p
      → (e : JobEvent N) × (from_dict py now d ≡ ok e)
        × (e.status ≡ running)
        × (e.raw_status ≡ some w)
        × (Dicts.has e.meta (codes "raw_status") ≡ true)
  unfolding from_dict wire_status parse_status raw_of post_init
  from_dict_unknown_status now d w m p hs hw hm hp =
      let e : JobEvent N = record {
        job_id = str_or py d (codes "job_id") [];
        type = str_or py d (codes "type") [];
        user = str_or py d (codes "user") [];
        origin = str_or py d (codes "origin") (codes "user");
        actor = str_or py d (codes "actor") [];
        status = running;
        progress = p;
        ts = str_or py d (codes "ts") now;
        exit_status = Option.map py.str (get_value py d (codes "exit_status"));
        meta = keep_unknown py m d;
        raw_status = some w;
      } in
      (
        post_init e,
        rw (hm, hp) (rw hs (rw (py.str_text w) (rw (hw, parse_status) refl))),
        refl,
        refl,
        Dicts.has-set_default _ _ _,
      )
