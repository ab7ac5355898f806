-- ===== src/Restore/Compile/Protected.antt =====
-- A rule of the policy never overrides a protecting system rule.
use testudo_operator.Base.{
  ℕ, ◌+◌, String, ◌≡◌, refl, sym, ap, ◌∙◌, subst, ◌⊎◌, inl, inr, Bool, true, false, Option, List,
  [], ◌∷◌, ◌++◌, In, In-append_left, In-append_right, In-append_cases, is_empty,
}
use testudo_operator.Restore.Types.{
  Conditions, JsonPatch, ResourceModifierRule, Externals, Options, ok, Gives, Gives-bind, Gives-ok,
  Gives-any, reject_if, rule_rejected, Summary, CompiledCandidate,
}
use testudo_operator.Restore.Governance.{
  validate_patch_governance, validate_resource_modifier_rule_complexity,
}
use testudo_operator.Restore.Candidate.{
  governed_patches, compile_system_rules, compile_system_rule_candidates,
}
use testudo_operator.Restore.Keys.{make_conflict_key}
use testudo_operator.Restore.Merge.{rule_of}
use testudo_operator.Restore.Merge.Precedence.{rule_key, merge-precedence}
use testudo_operator.Restore.Compile.{Instance, compile_modifier_rules_for_instance}
use testudo_operator.Restore.Compile.Candidates.{completed, compiled-Merged}
use testudo_operator.Restore.Compile.Governed.{compile_one_modifier_rule-Gives}

governed_patches-same :
    (conditions : Conditions) (system : Bool) (patches : List JsonPatch)
    → Gives (λ out. out ≡ patches) (governed_patches conditions system patches)
unfolding governed_patches
governed_patches-same conditions system [] = Gives-ok [] refl
governed_patches-same conditions system (patch ∷ patches) =
    Gives-bind (λ u. Unit {0}) (validate_patch_governance conditions patch system) _ (Gives-any _)
      (λ u a.
        Gives-bind (λ out. out ≡ patches) (governed_patches conditions system patches) _
          (governed_patches-same conditions system patches)
          (λ rest e. Gives-ok (patch ∷ rest) (ap (λ ps. patch ∷ ps) e)))

-- The candidates of system rules: one for each rule, with its conditions and patches.
abbrev Represents : Bool → List ResourceModifierRule → List CompiledCandidate → Type 0
Represents protect [] [] = Unit
Represents protect [] (c ∷ cs) = ⊥
Represents protect (r ∷ rs) [] = ⊥
Represents protect (r ∷ rs) (c ∷ cs) =
    (c.rule ≡ r) × (c.is_system_protect ≡ protect) × Represents protect rs cs

Represents-In :
    (protect : Bool) (rs : List ResourceModifierRule) (cs : List CompiledCandidate)
    → Represents protect rs cs
    → (r : ResourceModifierRule) → In r rs
    → (c : CompiledCandidate) × In c cs × (c.rule ≡ r) × (c.is_system_protect ≡ protect)
Represents-In protect [] cs h r i = absurd i
Represents-In protect (r ∷ rs) [] h q i = absurd h
Represents-In protect (r ∷ rs) (c ∷ cs) h q (inl e) = (c, inl refl, h.0 ∙ sym e, h.1)
Represents-In protect (r ∷ rs) (c ∷ cs) h q (inr i) =
    let (d, j, e, f) = Represents-In protect rs cs h.2 q i in (d, inr j, e, f)

Represents-In_inv :
    (protect : Bool) (rs : List ResourceModifierRule) (cs : List CompiledCandidate)
    → Represents protect rs cs
    → (c : CompiledCandidate) → In c cs
    → In c.rule rs × (c.is_system_protect ≡ protect)
Represents-In_inv protect [] [] h c i = absurd i
Represents-In_inv protect [] (d ∷ ds) h c i = absurd h
Represents-In_inv protect (r ∷ rs) [] h c i = absurd i
Represents-In_inv protect (r ∷ rs) (d ∷ ds) h c (inl e) = rw e (inl h.0, h.1)
Represents-In_inv protect (r ∷ rs) (d ∷ ds) h c (inr i) =
    let (j, e) = Represents-In_inv protect rs ds h.2 c i in (inr j, e)

module _ (ext : Externals) where
  compile_system_rules-Represents :
      (prefix : String) (protect : Bool) (idx : ℕ) (rules : List ResourceModifierRule)
      → Gives (Represents protect rules) (compile_system_rules ext prefix protect idx rules)
  unfolding compile_system_rules
  compile_system_rules-Represents prefix protect idx [] = Gives-ok [] tt
  compile_system_rules-Represents prefix protect idx (rule ∷ rules) =
      Gives-bind (λ u. Unit {0}) (validate_resource_modifier_rule_complexity ext rule) _
        (Gives-any _)
        (λ u a.
          Gives-bind (λ u. Unit {0}) (reject_if (is_empty rule.patches) rule_rejected) _
            (Gives-any _)
            (λ v b.
              Gives-bind (λ out. out ≡ rule.patches)
                (governed_patches rule.conditions true rule.patches) _
                (governed_patches-same rule.conditions true rule.patches)
                (λ patches e.
                  Gives-bind (Represents protect rules)
                    (compile_system_rules ext prefix protect (idx + 1) rules) _
                    (compile_system_rules-Represents prefix protect (idx + 1) rules)
                    (λ rest h. Gives-ok _ (
                      ap {B = ResourceModifierRule}
                          (λ ps. record { conditions = rule.conditions; patches = ps }) e,
                      refl,
                      h,
                    )))))

  -- The protecting candidates are exactly those of the protecting system rules.
  record Guarded (options : Options) (rules : List CompiledCandidate) : Type 0 where
    present :
        (r : ResourceModifierRule)
        → In r options.system_protect_rules
        → (c : CompiledCandidate) × In c rules × (c.rule ≡ r) × (c.is_system_protect ≡ true)
    genuine :
        (c : CompiledCandidate)
        → In c rules
        → c.is_system_protect ≡ true
        → In c.rule options.system_protect_rules

  system-Guarded :
      (options : Options) → Gives (Guarded options) (compile_system_rule_candidates ext options)
  unfolding compile_system_rule_candidates
  system-Guarded options =
      Gives-bind (Represents false options.system_rules)
        (compile_system_rules ext "system" false 0 options.system_rules) _
        (compile_system_rules-Represents "system" false 0 options.system_rules)
        (λ system h.
          Gives-bind (Represents true options.system_protect_rules)
            (compile_system_rules ext "system-protect" true 0 options.system_protect_rules) _
            (compile_system_rules-Represents "system-protect" true 0 options.system_protect_rules)
            (λ protect k. Gives-ok (system ++ protect) (record {
              present = λ r i.
                  let (c, j, e, f) =
                    Represents-In true options.system_protect_rules protect k r i in
                  (c, In-append_right c system protect j, e, f);
              genuine = λ c i p. elim (In-append_cases c system protect i) [
                | inl j ↦ cc ((Represents-In_inv false options.system_rules system h c j).1)
                | inr j ↦ (Represents-In_inv true options.system_protect_rules protect k c j).0
              ];
            })))

  grow-Guarded :
      (options : Options) (rules : List CompiledCandidate) (c : CompiledCandidate)
      → c.is_system_protect ≡ false
      → Guarded options rules
      → Guarded options (rules ++ c ∷ [])
  grow-Guarded options rules c user h = record {
    present =
        λ r i. let (d, j, e, f) = h.present r i in (d, In-append_left d rules (c ∷ []) j, e, f);
    genuine = λ d i p. elim (In-append_cases d rules (c ∷ []) i) [
      | inl j ↦ h.genuine d j p
      | inr (inl e) ↦ cc (ap (λ (x : CompiledCandidate). x.is_system_protect) e)
      | inr (inr f) ↦ absurd f
    ];
  }

  -- When the compiler returns rules, each patch of each protecting system rule has a returned rule
  -- with its conflict key, and the patch of that rule has the same value or is itself one of a
  -- protecting system rule, whatever the rules of the policy and of the runtime say.
  pub compiled-protects :
      (instance' : Option Instance) (options : Options) (s : Summary)
      (out : List ResourceModifierRule)
      → compile_modifier_rules_for_instance ext instance' options ≡ (s, ok out)
      → (rule : ResourceModifierRule) (patch : JsonPatch) → In rule options.system_protect_rules
      → In patch rule.patches
      → (winner : ResourceModifierRule) × (kept : JsonPatch) × In winner out
        × (winner.patches ≡ kept ∷ [])
        × (rule_key ext winner ≡ make_conflict_key ext rule.conditions patch)
        × ((kept.value ≡ patch.value)
            ⊎ ((guard : ResourceModifierRule) × In guard options.system_protect_rules
                × In kept guard.patches))
  compiled-protects instance' options s out e rule patch i j =
      let (rules, h, s1, s2, m) =
        compiled-Merged ext options (Guarded options) (system-Guarded options).at
          (λ rules rule' flow idx c q g.
            grow-Guarded options rules (completed rule' idx c)
              ((compile_one_modifier_rule-Gives ext rule' flow options).at c q).1 g)
          instance' s out e in
      let (c, k, same, protects) = h.present rule i in
      let (w, offered, found, key, beats) =
        merge-precedence ext rules s1 s2 out m c patch
          (k, subst (λ r. In patch r.patches) (sym same) j) in
      (
        rule_of w,
        w.patch,
        found,
        refl,
        key ∙ ap (λ r. make_conflict_key ext r.conditions patch) same,
        (elim beats [
          | inl value ↦ inl value
          | inr (inl guards) ↦
              inr (w.candidate.rule, h.genuine w.candidate offered.0 guards, offered.1)
          | inr (inr (free, low)) ↦ cc
        ]),
      )
