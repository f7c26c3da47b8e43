-- ===== src/Prelude/Dicts.antt =====
-- Python's `dict` with text keys, as an association list in insertion order. Its laws have the form
-- of a conditional, so they rewrite without side conditions.
use funnelmanager.Prelude.{
  Bool, Bool-cases, List, Option, Text, [], arith, false, if◌then◌else◌, inl, inr, keep, none, not,
  refl, some, text_eq, text_eq_iff, text_eq_refl, true, ◌&&◌, ◌||◌, ◌∷◌, ◌≡◌,
}

abbrev pub Dict {ℓ} : Type ℓ → Type ℓ
Dict V = List (Text × V)

module _ {ℓ} {V : Type ℓ} where
  -- `d.get(k)`
  unfoldable pub get : Dict V → Text → Option V
  get [] k = none
  get ((j, v) ∷ d) k = if text_eq j k then some v else get d k

  -- `d[k] = v`: a key that is there keeps its place
  unfoldable pub put : Dict V → Text → V → Dict V
  put [] k v = (k, v) ∷ []
  put ((j, w) ∷ d) k v = let rest = put d k v in if text_eq j k then (j, v) ∷ d else (j, w) ∷ rest

  -- `d.pop(k, None)`
  unfoldable pub pop : Dict V → Text → Dict V
  pop [] k = []
  pop ((j, w) ∷ d) k = let rest = pop d k in if text_eq j k then rest else (j, w) ∷ rest

  -- `k in d`
  unfoldable pub has : Dict V → Text → Bool
  has [] k = false
  has ((j, w) ∷ d) k = if text_eq j k then true else has d k

  -- `d.setdefault(k, v)`
  unfoldable pub set_default : Dict V → Text → V → Dict V
  unfolding has put
  set_default d k v = if has d k then d else put d k v

  -- `d.update(e)`
  unfoldable pub update : Dict V → Dict V → Dict V
  unfolding put
  update d [] = d
  update d ((k, v) ∷ e) = update (put d k v) e

  pub get-put :
      (d : Dict V) (k j : Text) (v : V)
      → get (put d k v) j ≡ (if text_eq k j then some v else get d j)
  unfolding get put
  get-put [] k j v = refl
  get-put ((i, w) ∷ d) k j v =
      ground (arith, text_eq_iff k j, text_eq_iff i k, text_eq_iff i j, get-put d k j v)

  pub get-pop :
      (d : Dict V) (k j : Text) → get (pop d k) j ≡ (if text_eq k j then none else get d j)
  unfolding get pop
  get-pop [] k j = ground arith
  get-pop ((i, w) ∷ d) k j =
      ground (arith, text_eq_iff k j, text_eq_iff i k, text_eq_iff i j, get-pop d k j)

  pub get-put_self : (d : Dict V) (k : Text) (v : V) → get (put d k v) k ≡ some v
  get-put_self d k v = ground (arith, get-put d k k v, text_eq_refl k)

  pub has-get : (d : Dict V) (k : Text) → has d k ≡ elim (get d k) [ none ↦ false | some _ ↦ true ]
  unfolding has get
  has-get [] k = refl
  has-get ((j, w) ∷ d) k = ground (arith, has-get d k)

  pub has-put_self : (d : Dict V) (k : Text) (v : V) → has (put d k v) k ≡ true
  has-put_self d k v = rw has-get (rw get-put_self)

  pub has-set_default : (d : Dict V) (k : Text) (v : V) → has (set_default d k v) k ≡ true
  unfolding set_default
  has-set_default d k v = ground (arith, has-put_self d k v)

  -- What `update` stores under a key: the last value that `e` gives it, else what was there.
  pub get-update :
      (d e : Dict V) (k : Text)
      → get (update d e) k ≡ elim (get (update [] e) k) [ some v ↦ some v | none ↦ get d k ]
  unfolding update get put
  get-update d [] k = refl
  get-update d ((j, v) ∷ e) k =
      ground (arith, get-update (put d j v) e k, get-update ((j, v) ∷ []) e k, get-put d j k v)

  pub get-update_twice :
      (d e : Dict V) (k : Text) → get (update (update d e) e) k ≡ get (update d e) k
  get-update_twice d e k = ground (arith, get-update (update d e) e k, get-update d e k)

  -- Every key stands once, as in a `dict`.
  abbrev pub Unique : Dict V → Type 0
  Unique [] = Unit
  Unique ((k, v) ∷ d) = (has d k ≡ false) × Unique d

  pub has-put : (d : Dict V) (k j : Text) (v : V) → has (put d k v) j ≡ (text_eq k j || has d j)
  unfolding has put
  has-put [] k j v = ground arith
  has-put ((i, w) ∷ d) k j v =
      ground (arith, text_eq_iff k j, text_eq_iff i k, text_eq_iff i j, has-put d k j v)

  pub has-pop : (d : Dict V) (k j : Text) → has (pop d k) j ≡ (not (text_eq k j) && has d j)
  unfolding has pop
  has-pop [] k j = ground arith
  has-pop ((i, w) ∷ d) k j =
      ground (arith, text_eq_iff k j, text_eq_iff i k, text_eq_iff i j, has-pop d k j)

  pub put-Unique : (d : Dict V) (k : Text) (v : V) → Unique d → Unique (put d k v)
  unfolding put has
  put-Unique [] k v h = (refl, tt)
  put-Unique ((i, w) ∷ d) k v h = elim (Bool-cases (text_eq i k)) [
    | inl e ↦ rw e h
    | inr e ↦
        rw e
          (ground (arith, has-put d k i v, text_eq_iff k i, text_eq_iff i k), put-Unique d k v h.1)
  ]

  pub pop-Unique : (d : Dict V) (k : Text) → Unique d → Unique (pop d k)
  unfolding pop
  pop-Unique [] k h = tt
  pop-Unique ((i, w) ∷ d) k h = elim (Bool-cases (text_eq i k)) [
    | inl e ↦ rw e (pop-Unique d k h.1)
    | inr e ↦ rw e (ground (arith, has-pop d k i), pop-Unique d k h.1)
  ]

  pub get-none : (d : Dict V) (k : Text) → has d k ≡ false → get d k ≡ none
  get-none d k h = ground (arith, has-get d k)

  -- A comprehension that keeps the items whose value passes a test.
  pub get-keep :
      (p : V → Bool) (d : Dict V) (k : Text)
      → Unique d
      → get (keep (λ kv. p kv.1) d) k
        ≡ elim (get d k) [ some v ↦ if p v then some v else none | none ↦ none ]
  unfolding get
  get-keep p [] k h = refl
  get-keep p ((i, w) ∷ d) k h = ground (arith, get-keep p d k h.1, text_eq_iff i k, get-none d k)
