-- ===== src/Restore/Namespaces/Scope.antt =====
-- internal/controller/restore/modifier_submission_validation.go: the namespaces in which a rule looks for
-- objects.
use testudo_operator.Base.{
  String, ◌≡◌, ◌≢◌, refl, sym, ap, ◌∙◌, subst, ◌⊎◌, inl, inr, true, false, not, ◌||◌, List, [], ◌∷◌,
  ◌++◌, ◌==◌, eq_iff, arith, In, In-append_cases, All, In-All, Distinct, Distinct-snoc, is_empty,
  Bool-cases, if-cases,
}
use testudo_operator.Base.Text.{trim_space}
use testudo_operator.Restore.Types.{ok}
use testudo_operator.Restore.Namespaces.{
  is_member, allowed_names, check_names, validate_rule_namespace_scope, append_name, append_all,
  effective_rule_namespaces,
}

is_member-In : (name : String) (ns : List String) → is_member name ns ≡ true → In name ns
unfolding is_member
is_member-In name [] h = cc
is_member-In name (n ∷ ns) h = elim (Bool-cases (n == name)) [
  | inl e ↦ inl (sym ((eq_iff n name).0 e))
  | inr e ↦ inr (is_member-In name ns (ground (arith, h)))
]

is_member-false : (name : String) (ns : List String) → is_member name ns ≡ false → ¬ In name ns
unfolding is_member
is_member-false name [] h i = i
is_member-false name (n ∷ ns) h (inl e) = ground (arith, h, eq_iff n name)
is_member-false name (n ∷ ns) h (inr i) = is_member-false name ns (ground (arith, h)) i

-- The name is that of one of the items, trimmed, and not blank.
abbrev pub Names : String → List String → Type 0
Names name items = (item : String) × In item items × (name ≡ trim_space item) × (name ≢ "")

Names-later :
    (name item : String) (items : List String) → Names name items → Names name (item ∷ items)
Names-later name item items (i, l, e, n) = (i, inr l, e, n)

allowed_names-In : (name : String) (ns : List String) → In name (allowed_names ns) → Names name ns
unfolding allowed_names
allowed_names-In name [] i = absurd i
allowed_names-In name (n ∷ ns) i =
    (if-cases (λ l. In name l → Names name (n ∷ ns)) (trim_space n == "") (allowed_names ns)
        (trim_space n ∷ allowed_names ns)
        (λ e j. Names-later name n ns (allowed_names-In name ns j))
        (λ e j. elim j [
          | inl q ↦ (n, inl refl, q, (λ b. ground (arith, eq_iff (trim_space n) "")))
          | inr k ↦ Names-later name n ns (allowed_names-In name ns k)
        ]))
      i

append_name-In :
    (name : String) (out : List String) (item : String)
    → In name (append_name out item)
    → In name out ⊎ ((name ≡ trim_space item) × (name ≢ ""))
unfolding append_name
append_name-In name out item i =
    (if-cases (λ l. In name l → In name out ⊎ ((name ≡ trim_space item) × (name ≢ "")))
        (trim_space item == "" || is_member (trim_space item) out) out (out ++ trim_space item ∷ [])
        (λ e j. inl j)
        (λ e j. elim (In-append_cases name out (trim_space item ∷ []) j) [
          | inl k ↦ inl k
          | inr (inl q) ↦ inr (q, (λ b. ground (arith, e, q, b, eq_iff (trim_space item) "")))
          | inr (inr f) ↦ absurd f
        ]))
      i

append_name-Distinct :
    (out : List String) (item : String) → Distinct out → Distinct (append_name out item)
unfolding append_name
append_name-Distinct out item d =
    if-cases Distinct (trim_space item == "" || is_member (trim_space item) out) _ _ (λ e. d)
      (λ e.
        Distinct-snoc out (trim_space item) d
          (is_member-false (trim_space item) out (ground (arith, e))))

append_all-In :
    (items : List String) (name : String) (out : List String)
    → In name (append_all out items)
    → In name out ⊎ Names name items
unfolding append_all
append_all-In [] name out i = inl i
append_all-In (item ∷ items) name out i = elim (append_all-In items name (append_name out item) i) [
  | inr n ↦ inr (Names-later name item items n)
  | inl j ↦ elim (append_name-In name out item j) [
    | inl k ↦ inl k
    | inr (e, n) ↦ inr (item, inl refl, e, n)
  ]
]

append_all-Distinct : (items out : List String) → Distinct out → Distinct (append_all out items)
unfolding append_all
append_all-Distinct [] out d = d
append_all-Distinct (item ∷ items) out d =
    append_all-Distinct items (append_name out item) (append_name-Distinct out item d)

check_names-In :
    (allowed ns : List String) (name : String)
    → check_names allowed ns ≡ ok tt
    → Names name ns
    → In name allowed
unfolding check_names
check_names-In allowed [] name h (i, l, e, n) = absurd l
check_names-In allowed (m ∷ ns) name h (i, inl l, e, n) =
    let q : name ≡ trim_space m = e ∙ ap trim_space l in
    subst (λ v. In v allowed) (sym q)
      (is_member-In (trim_space m) allowed (ground (arith, h, q, n, eq_iff (trim_space m) "")))
check_names-In allowed (m ∷ ns) name h (i, inr l, e, n) =
    check_names-In allowed ns name (ground (arith, h)) (i, l, e, n)

validated :
    (rules instances : List String)
    → is_empty rules ≡ false
    → is_empty (allowed_names instances) ≡ false
    → validate_rule_namespace_scope rules instances ≡ ok tt
    → check_names (allowed_names instances) rules ≡ ok tt
unfolding validate_rule_namespace_scope allowed_names
validated rules [] r a h = cc
validated rules (n ∷ ns) r a h = ground (arith, r, a, h)

-- When a rule passes the check of its namespaces, and the instance names one, the namespaces in which
-- the rule looks for objects are distinct, and each is one that the instance names.
pub effective_rule_namespaces-Names :
    (rule_namespaces instance_namespaces : List String)
    → is_empty (allowed_names instance_namespaces) ≡ false
    → validate_rule_namespace_scope rule_namespaces instance_namespaces ≡ ok tt
    → Distinct (effective_rule_namespaces rule_namespaces instance_namespaces)
      × All
          (λ name. Names name instance_namespaces)
          (effective_rule_namespaces rule_namespaces instance_namespaces)
unfolding effective_rule_namespaces
effective_rule_namespaces-Names rules instances a h =
    let P : List String → Type 0 = λ l. Distinct l × All (λ name. Names name instances) l in
    let first = append_all [] rules in
    let distinct : Distinct first = append_all-Distinct rules [] tt in
    let inside : (name : String) → In name first → Names name instances = λ name i.
      allowed_names-In name instances (
        own rules a h name
          (elim (append_all-In rules name [] i) [ inl f ↦ absurd f | inr n ↦ n ])) in
    if-cases P (not (is_empty first)) _ _
      (λ e. (distinct, In-All (λ name. Names name instances) first inside))
      (λ e. (
        append_all-Distinct instances first distinct,
        In-All (λ name. Names name instances) (append_all first instances)
            (λ name i. elim (append_all-In instances name first i) [
              | inl j ↦ inside name j
              | inr n ↦ n
            ]),
      ))
  where
    own :
        (rs : List String)
        → is_empty (allowed_names instances) ≡ false
        → validate_rule_namespace_scope rs instances ≡ ok tt
        → (name : String) → Names name rs
        → In name (allowed_names instances)
    own [] a h name (i, l, e, n) = absurd l
    own (r ∷ rs) a h name n =
        check_names-In (allowed_names instances) (r ∷ rs) name
          (validated (r ∷ rs) instances refl a h) n
