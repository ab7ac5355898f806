-- ===== src/Restore/Compile/Candidates.antt =====
-- The candidates that `compileModifierRulesForInstance` merges: what the system rules give, and one
-- more for each rule that takes part.
use testudo_operator.Base.{
  ℕ, ◌+◌, ◌≡◌, refl, subst, Bool, true, false, Option, none, some, List, [], ◌∷◌, ◌++◌, ◌&&◌,
  is_empty, if◌then◌else◌,
}
use testudo_operator.Restore.Types.{
  ResourceModifierRule, RestoreModifierRule, RestorePolicy, Externals, Options, Result, ok, err,
  Flow, Summary, CompiledCandidate,
}
use testudo_operator.Restore.Governance.{validate_rule_count_limit}
use testudo_operator.Restore.Flow.{takes_part}
use testudo_operator.Restore.Candidate.{
  normalize_on_conflict, normalized_rule_id, compile_one_modifier_rule,
  compile_system_rule_candidates,
}
use testudo_operator.Restore.Merge.{merge_compiled_candidates}
use testudo_operator.Restore.Compile.{
  Instance, Compiling, continue, ◌>>=◌, pure, lift, rejecting, skipped, directed, add_rules, merge,
  direction_of, rule_count, has_new_dsl_rules, is_unified_direction_resolver_enabled,
  effective_modifier_rule_input, compile_directed, compile_policy, policy_of,
  compile_modifier_rules_for_instance,
}

-- What a compilation returns, when it returns a value.
record Yields {A : Type 0} (P : A → Type 0) (m : Compiling A) : Type 0 where
  at : (s s' : Summary) (a : A) → m s ≡ (s', ok a) → P a

module _ {A B : Type 0} {P : B → Type 0} where
  Yields-continue :
      (r : Result A) (f : A → Compiling B) (s s' : Summary) (b : B)
      → ((a : A) → r ≡ ok a → Yields P (f a))
      → continue r f s ≡ (s', ok b)
      → P b
  Yields-continue (ok a) f s s' b k e = (k a refl).at s s' b e
  Yields-continue (err x) f s s' b k e = cc

  Yields-bind :
      (Q : A → Type 0) (m : Compiling A) (f : A → Compiling B)
      → Yields Q m
      → ((a : A) → Q a → Yields P (f a))
      → Yields P (m >>= f)
  Yields-bind Q m f ym yf = record {
    at = λ s s' b e.
        let (s1, r) = m s in
        Yields-continue r f s1 s' b (λ a q. yf a (ym.at s s1 a (λ i. ((m s).0, q i)))) e;
  }

Yields-lift : {A : Type 0} (r : Result A) → Yields (λ a. r ≡ ok a) (lift r)
Yields-lift r = record { at = λ s s' a e. cc }

Yields-rejecting : {A : Type 0} (r : Result A) → Yields (λ a. r ≡ ok a) (rejecting r)
Yields-rejecting (ok a) = record { at = λ s s' b e. cc }
Yields-rejecting (err x) = record { at = λ s s' b e. cc }

Yields-pure : {A : Type 0} {P : A → Type 0} (a : A) → P a → Yields P (pure a)
Yields-pure {P = P} a p = record { at = λ s s' b e. let q : a ≡ b = cc in subst P q p }

Yields-any : {A : Type 0} (m : Compiling A) → Yields (λ a. Unit {0}) m
Yields-any m = record { at = λ s s' a e. tt }

Yields-if :
    {A : Type 0} {P : A → Type 0} (b : Bool) (m n : Compiling A)
    → Yields P m
    → Yields P n
    → Yields P (if b then m else n)
Yields-if true m n ym yn = ym
Yields-if false m n ym yn = yn

-- A candidate as `compileModifierRulesForInstance` completes it.
abbrev pub completed : RestoreModifierRule → ℕ → CompiledCandidate → CompiledCandidate
completed rule idx candidate = record candidate {
  priority = rule.priority;
  rule_id = normalized_rule_id rule idx;
  on_conflict = normalize_on_conflict rule.on_conflict;
}

module _ (ext : Externals) (options : Options) (P : List CompiledCandidate → Type 0)
    (system : (rules : List CompiledCandidate)
      → compile_system_rule_candidates ext options ≡ ok rules
      → P rules)
    (grow : (rules : List CompiledCandidate) (rule : RestoreModifierRule) (flow : Flow) (idx : ℕ)
        (candidate : CompiledCandidate)
      → compile_one_modifier_rule ext rule flow options ≡ ok candidate
      → P rules
      → P (rules ++ completed rule idx candidate ∷ [])) where
  -- The rules are those of a merge of candidates with `P`.
  abbrev Merged : List ResourceModifierRule → Type 0
  Merged out =
      (rules : List CompiledCandidate) × P rules
      × (s : Summary) × (s' : Summary) × (merge_compiled_candidates ext rules s ≡ (s', ok out))

  add_rules-Yields :
      (flow : Flow) (idx : ℕ) (input : List RestoreModifierRule) (rules : List CompiledCandidate)
      → P rules
      → Yields P (add_rules ext options flow idx input rules)
  unfolding add_rules
  add_rules-Yields flow idx [] rules p = Yields-pure rules p
  add_rules-Yields flow idx (rule ∷ input) rules p =
      Yields-if (takes_part rule options.apply_target flow) _ _
        (Yields-bind (λ c. compile_one_modifier_rule ext rule flow options ≡ ok c) _ _
          (Yields-rejecting (compile_one_modifier_rule ext rule flow options))
          (λ c e.
            add_rules-Yields flow (idx + 1) input (rules ++ completed rule idx c ∷ [])
              (grow rules rule flow idx c e p)))
        (Yields-bind (λ a. Unit {0}) skipped _ (Yields-any skipped)
          (λ a u. add_rules-Yields flow (idx + 1) input rules p))

  merge-Yields : (rules : List CompiledCandidate) → P rules → Yields Merged (merge ext rules)
  unfolding merge
  merge-Yields rules p = record { at = λ s s' out e. (rules, p, s, s', e) }

  compile_directed-Yields :
      (instance' : Instance) (input : List RestoreModifierRule) (rules : List CompiledCandidate)
      → P rules
      → Yields Merged (compile_directed ext instance' options input rules)
  unfolding compile_directed
  compile_directed-Yields instance' input rules p =
      Yields-if (is_empty input && is_empty options.runtime_modifier_rules) _ _
        (merge-Yields rules p)
        (Yields-bind (λ a. Unit {0}) (direction_of instance' options) _
          (Yields-any (direction_of instance' options))
          (λ direction u.
            Yields-bind (λ a. Unit {0}) (directed direction) _ (Yields-any (directed direction))
              (λ a v.
                Yields-bind P _ _
                  (add_rules-Yields direction.0 0 options.runtime_modifier_rules rules p)
                  (λ r1 p1.
                    Yields-bind P _ _ (add_rules-Yields direction.0 0 input r1 p1)
                      (λ r2 p2. merge-Yields r2 p2)))))

  compile_policy-Yields :
      (instance' : Instance) (policy : RestorePolicy) (rules : List CompiledCandidate)
      → P rules
      → Yields Merged (compile_policy ext instance' policy options rules)
  unfolding compile_policy
  compile_policy-Yields instance' policy rules p =
      Yields-bind (λ a. Unit {0}) (rejecting (effective_modifier_rule_input policy)) _
        (Yields-any (rejecting (effective_modifier_rule_input policy)))
        (λ input u.
          Yields-bind (λ a. Unit {0})
            (rejecting (validate_rule_count_limit (rule_count options input))) _
            (Yields-any (rejecting (validate_rule_count_limit (rule_count options input))))
            (λ a v.
              Yields-if (is_unified_direction_resolver_enabled policy) _ _
                (compile_directed-Yields instance' input rules p)
                (Yields-if (has_new_dsl_rules policy) _ _ (record { at = λ s s' b e. cc })
                  (Yields-if (is_empty options.runtime_modifier_rules) _ _ (merge-Yields rules p)
                    (compile_directed-Yields instance' input rules p)))))

  -- Whatever holds of the system candidates, and is kept by each candidate that is added, holds of
  -- the candidates whose merge the compiler returns.
  pub compiled-Merged :
      (instance' : Option Instance) (s : Summary) (out : List ResourceModifierRule)
      → compile_modifier_rules_for_instance ext instance' options ≡ (s, ok out)
      → Merged out
  unfolding compile_modifier_rules_for_instance
  compiled-Merged instance' s out e =
      (Yields-bind (λ rules. compile_system_rule_candidates ext options ≡ ok rules) _ _
          (Yields-rejecting (compile_system_rule_candidates ext options))
          (λ rules q. go (policy_of instance') rules (system rules q))).at
        _ s out e
    where
      go :
          (o : Option (Instance × RestorePolicy)) (rules : List CompiledCandidate)
          → P rules
          → Yields Merged (elim o [
            | none ↦ merge ext rules
            | some (inst, policy) ↦ compile_policy ext inst policy options rules
          ])
      go none rules p = merge-Yields rules p
      go (some (inst, policy)) rules p = compile_policy-Yields inst policy rules p
