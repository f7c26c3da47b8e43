-- ===== src/Runtime/Grants/Allow.antt =====
-- What a set of roles may call (`grants_allow` of grants.py).
use funnelmanager.Prelude.{
  ==_iff, Bool, Bool-cases, In, List, Option, Text, [], and_true, any, ap, arith, codes, false, inl,
  inr, none, refl, some, starts_with, sym, text_eq, text_eq_iff, true, ◌++◌, ◌||◌, ◌↔◌, ◌∙◌, ◌∷◌,
  ◌≡◌, ◌⊎◌,
}
use mathlib.Core.Bool.{false≢true}
use funnelmanager.Prelude.Dicts.{Dict}
use funnelmanager.Runtime.Grants.Prefix.{
  IsUnder, rstrip_slash_base, rstrip_slash_end, rstrip_slash_split,
}
use funnelmanager.Runtime.Grants.{
  Grant, among, rstrip_slash, prefix_match, service_in, covers, grants_of, grants_allow,
}

starts_with_split : (s p : Text) → starts_with s p ≡ true → (rest : Text) × (s ≡ p ++ rest)
unfolding starts_with
starts_with_split s [] h = (s, refl)
starts_with_split [] (d ∷ p) h = cc
starts_with_split (c ∷ s) (d ∷ p) h =
    let (e, f) = and_true _ _ h in
    let (rest, q) = starts_with_split s p f in
    let same : c ∷ s ≡ d ∷ s = ap (λ x. x ∷ s) ((==_iff c d).0 e) in (rest, same ∙ ap (◌∷◌ d) q)

starts_with-append : (p rest : Text) → starts_with (p ++ rest) p ≡ true
unfolding starts_with
starts_with-append [] rest = refl
starts_with-append (c ∷ p) rest = ground (arith, starts_with-append p rest)

or_true : (a b : Bool) → (a || b) ≡ true → (a ≡ true) ⊎ (b ≡ true)
or_true true b h = inl refl
or_true false b h = inr h

or_right : (a : Bool) → (a || true) ≡ true
or_right true = refl
or_right false = refl

-- A prefix matches exactly the paths at a segment boundary under it.
pub prefix_match-IsUnder :
    (prefix path : Text) → (prefix_match prefix path ≡ true) ↔ IsUnder prefix path
unfolding prefix_match
prefix_match-IsUnder prefix path = (
  λ h. elim (or_true _ _ h) [
    | inr s ↦
        let (rest, e) = starts_with_split path (rstrip_slash prefix ++ codes "/") s in
        let (n, f) = rstrip_slash_split prefix in
        inr (inr (rstrip_slash prefix, n, rest, f, rstrip_slash_end prefix, e))
    | inl u ↦ elim (or_true _ _ u) [
      | inl r ↦ inl ((text_eq_iff prefix (codes "/")).0 r)
      | inr e ↦ inr (inl ((text_eq_iff path prefix).0 e))
    ]
  ],
  λ u. elim u [
    | inl r ↦ rw ((text_eq_iff prefix (codes "/")).1 r) refl
    | inr (inl e) ↦ rw ((text_eq_iff path prefix).1 e, or_right (text_eq prefix (codes "/"))) refl
    | inr (inr (base, n, rest, f, end, e)) ↦
        let bare : rstrip_slash prefix ≡ base = ap rstrip_slash f ∙ rstrip_slash_base base n end in
        let starts : starts_with path (rstrip_slash prefix ++ codes "/") ≡ true =
          ap (λ x. starts_with x (rstrip_slash prefix ++ codes "/")) e
          ∙ ap (λ x. starts_with ((base ++ codes "/") ++ rest) (x ++ codes "/")) bare
          ∙ starts_with-append (base ++ codes "/") rest in
        rw starts (or_right (text_eq prefix (codes "/") || text_eq path prefix))
  ],
)

module _ {A : Type 0} where
  any-In : (p : A → Bool) (xs : List A) → any p xs ≡ true → (x : A) × In x xs × (p x ≡ true)
  any-In p [] h = cc
  any-In p (x ∷ xs) h = elim (or_true _ _ h) [
    | inl here ↦ (x, inl refl, here)
    | inr there ↦ let (y, i, q) = any-In p xs there in (y, inr i, q)
  ]

  In-any : (p : A → Bool) (xs : List A) (x : A) → In x xs → p x ≡ true → any p xs ≡ true
  In-any p (y ∷ xs) x (inl e) h = rw (sym e, h) refl
  In-any p (y ∷ xs) x (inr i) h = rw (In-any p xs x i h) (or_right (p y))
  In-any p [] x i h = elim i [ ]

-- A grant covers a request that names its service, or any at a `*`, its method, or any at a `*`, and a
-- path under its prefix.
abbrev pub Covers : Text → Text → Text → Grant → Type 0
Covers service method path g =
    ((g.service ≡ some service) ⊎ (g.service ≡ some (codes "*")))
    × ((among (codes "*") g.methods ≡ true) ⊎ (among method g.methods ≡ true))
    × IsUnder g.path_prefix path

service_in-some :
    (o : Option Text) (service : Text)
    → (service_in o service ≡ true) ↔ ((o ≡ some service) ⊎ (o ≡ some (codes "*")))
unfolding service_in
service_in-some none service = (λ h. cc, λ h. ground arith)
service_in-some (some s) service = (
  λ h. elim (or_true _ _ h) [
    | inl e ↦ inl (ap some ((text_eq_iff s service).0 e))
    | inr e ↦ inr (ap some ((text_eq_iff s (codes "*")).0 e))
  ],
  λ u. elim u [
    | inl e ↦ rw ((text_eq_iff s service).1 (ground arith)) refl
    | inr e ↦ rw ((text_eq_iff s (codes "*")).1 (ground arith)) (or_right (text_eq s service))
  ],
)

covers-Covers :
    (service method path : Text) (g : Grant)
    → (covers service method path g ≡ true) ↔ Covers service method path g
unfolding covers
covers-Covers service method path g = (
  λ h.
      let (sm, p) = and_true _ _ h in
      let (s, m) = and_true _ _ sm in
      (
        (service_in-some g.service service).0 s,
        or_true _ _ m,
        (prefix_match-IsUnder g.path_prefix path).0 p,
      ),
  λ (s, m, p).
      let a = (service_in-some g.service service).1 s in
      let b = (prefix_match-IsUnder g.path_prefix path).1 p in ground arith,
)

-- A request is allowed exactly if one of the roles has a grant that covers it.
pub grants_allow-Covers :
    (table : Dict (List Grant)) (roles : List Text) (service method path : Text)
    → (grants_allow table roles service method path ≡ true) ↔ (
        (role : Text) × (g : Grant) × In role roles
        × In g (grants_of table role)
        × Covers service method path g)
unfolding grants_allow
grants_allow-Covers table [] service method path = (λ h. cc, λ (role, g, i, j, c). elim i [ ])
grants_allow-Covers table (role ∷ roles) service method path =
    let rest = grants_allow-Covers table roles service method path in
    elim (Bool-cases (any (covers service method path) (grants_of table role))) [
      | inl hit_here ↦ (
        λ h.
            let (g, j, c) = any-In (covers service method path) (grants_of table role) hit_here in
            (role, g, inl refl, j, (covers-Covers service method path g).0 c),
        λ w. rw hit_here refl,
      )
      | inr missed ↦ (
        λ h. let (r, g, i, j, c) = rest.0 (ground arith) in (r, g, inr i, j, c),
        λ (r, g, i, j, c). elim i [
          | inl e ↦
              let hit =
                In-any (covers service method path) (grants_of table r) g j
                  ((covers-Covers service method path g).1 c) in
              absurd (
                false≢true (
                  sym missed
                  ∙ ap (λ x. any (covers service method path) (grants_of table x)) (sym e)
                  ∙ hit))
          | inr i' ↦ rw missed (rest.1 (r, g, i', j, c))
        ],
      )
    ]
