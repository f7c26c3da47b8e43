-- ===== src/Leads/ResolveCache/Markers.antt =====
-- What the markers answer after a miss and after a hit (resolve_cache.py).
use funnelmanager.Prelude.{
  All, Bool, List, Text, [], arith, false, if◌then◌else◌, non_empty, none, refl, some, text_eq,
  text_eq_iff, text_eq_refl, true, ℕ, ◌+◌, ◌<◌, ◌∷◌, ◌≡◌, ◌≢◌,
}
use funnelmanager.Leads.ResolveCache.{
  Marker, marker_of, delete_markers, normalize_resolve_key, is_resolve_miss, mark_resolve_miss,
  clear_resolve_miss,
}

pub data Op : Type 0 where
  marks : Bool → ℕ → Text → Op
  clears : Bool → Text → Op
  sweeps : ℕ → Op

-- What the TTL index of the collection is documented to do when its monitor runs: a marker that is not yet
-- `ttl` old is left.
abbrev pub Sweeps : ℕ → (ℕ → List Marker → List Marker) → Type 0
Sweeps ttl sweep =
    (now : ℕ) (ms : List Marker) (key : Text) (m : Marker)
    → marker_of ms key ≡ some m
    → now < m.created_at + ttl
    → marker_of (sweep now ms) key ≡ some m

marker_of-delete_markers :
    (ms : List Marker) (j k : Text)
    → marker_of (delete_markers ms j) k ≡ (if text_eq j k then none else marker_of ms k)
unfolding marker_of delete_markers
marker_of-delete_markers [] j k = ground arith
marker_of-delete_markers (m ∷ ms) j k = ground (
  arith,
  marker_of-delete_markers ms j k,
  text_eq_iff m.value j,
  text_eq_iff m.value k,
  text_eq_iff j k,
)

module _ (lower : Text → Text) (ttl : ℕ) (sweep : ℕ → List Marker → List Marker) where
  unfoldable pub op_done : List Marker → Op → List Marker
  op_done ms (marks up now value) = mark_resolve_miss lower up now ms value
  op_done ms (clears up value) = clear_resolve_miss lower up ms value
  op_done ms (sweeps now) = sweep now ms

  unfoldable pub ops_done : List Marker → List Op → List Marker
  ops_done ms [] = ms
  ops_done ms (op ∷ ops) = ops_done (op_done ms op) ops

  -- The operation does not clear the key in a database that answers, and is no sweep at a time when the
  -- marker is `ttl` old.
  abbrev pub Spares : Text → Marker → Op → Type 0
  Spares key m (marks up now value) = Unit
  Spares key m (clears up value) = up ≡ true → normalize_resolve_key lower value ≢ key
  Spares key m (sweeps now) = now < m.created_at + ttl

  op_done_keeps :
      Sweeps ttl sweep
      → (ms : List Marker) (op : Op) (key : Text) (m : Marker) → marker_of ms key ≡ some m
      → Spares key m op
      → marker_of (op_done ms op) key ≡ some m
  unfolding op_done mark_resolve_miss clear_resolve_miss marker_of
  op_done_keeps w ms (marks up now value) key m h p =
      ground (arith, text_eq_iff (normalize_resolve_key lower value) key)
  op_done_keeps w ms (clears false value) key m h p = ground arith
  op_done_keeps w ms (clears true value) key m h p =
      let other = p refl in
      ground (
        arith,
        marker_of-delete_markers ms (normalize_resolve_key lower value) key,
        text_eq_iff (normalize_resolve_key lower value) key,
      )
  op_done_keeps w ms (sweeps now) key m h p = w now ms key m h p

  -- A miss that is marked stays marked, with the time of its first mark, until it is cleared or a sweep
  -- of the TTL index finds it `ttl` old: under any later marks at any time, any clearing of other keys, a
  -- clearing that the database does not take, and any earlier sweep, where a sweep leaves what is younger.
  pub ops_done_keeps :
      Sweeps ttl sweep
      → (ops : List Op) (ms : List Marker) (key : Text) (m : Marker) → marker_of ms key ≡ some m
      → All (Spares key m) ops
      → marker_of (ops_done ms ops) key ≡ some m
  unfolding ops_done
  ops_done_keeps w [] ms key m h p = h
  ops_done_keeps w (op ∷ ops) ms key m h p =
      ops_done_keeps w ops (op_done ms op) key m (op_done_keeps w ms op key m h p.0) p.1

module _ (lower : Text → Text) where
  -- Where the database answers: after a miss of a value with a key, every value of that key is a
  -- known miss, and after a hit none is.
  pub miss_and_hit :
      (now : ℕ) (ms : List Marker) (value other : Text)
      → normalize_resolve_key lower other ≡ normalize_resolve_key lower value
      → non_empty (normalize_resolve_key lower value) ≡ true
      → (is_resolve_miss lower true (mark_resolve_miss lower true now ms value) other ≡ true)
        × (is_resolve_miss lower true (clear_resolve_miss lower true ms value) other ≡ false)
  unfolding is_resolve_miss mark_resolve_miss clear_resolve_miss marker_of
  miss_and_hit now ms value other same n = (
    rw (same, n) (ground (arith, text_eq_refl (normalize_resolve_key lower value))),
    rw
        (
          same,
          n,
          marker_of-delete_markers ms (normalize_resolve_key lower value)
              (normalize_resolve_key lower value),
          text_eq_refl (normalize_resolve_key lower value),
        )
        refl,
  )
