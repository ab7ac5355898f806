-- ===== src/Drill/Mode/Aggregate.antt =====
-- internal/controller/disasterdrill/backup_mode.go, `aggregateDrillRestoreMode`: the mode of a group.
use testudo_operator.Base.{
  String, ◌≡◌, ◌≢◌, refl, sym, ◌∙◌, subst, ◌⊎◌, inl, inr, true, false, [], ◌∷◌, In, All, Bool-cases,
}
use testudo_operator.Base.Assoc.{Assoc}
use testudo_operator.Drill.Types.{RestoreMode, no_mode, reuse, full_restore, resource_only, mixed}
use testudo_operator.Drill.Mode.{mode_eq, aggregate_from, aggregate_drill_restore_mode}
use testudo_operator.Drill.Mode.Same.{mode_eq_sound}

mode_eq_refl : (a : RestoreMode) → mode_eq a a ≡ true
mode_eq_refl no_mode = refl
mode_eq_refl reuse = refl
mode_eq_refl full_restore = refl
mode_eq_refl resource_only = refl
mode_eq_refl mixed = refl

-- All further modes are the first one, or one of them differs.
abbrev pub Agrees : RestoreMode → Assoc RestoreMode → RestoreMode → Type 0
Agrees first modes result =
    ((result ≡ first) × All (λ e. e.1 ≡ first) modes)
    ⊎ ((result ≡ mixed) × (e : String × RestoreMode) × In e modes × (e.1 ≢ first))

aggregate_from-Agrees :
    (first : RestoreMode) (modes : Assoc RestoreMode)
    → mode_eq first no_mode ≡ false
    → Agrees first modes (aggregate_from first modes)
unfolding aggregate_from
aggregate_from-Agrees first [] h = inl (refl, tt)
aggregate_from-Agrees first ((name, mode) ∷ modes) h = elim (Bool-cases (mode_eq first mode)) [
  | inl e ↦
      rw (h, e)
        (elim (aggregate_from-Agrees first modes h) [
          | inl (r, all) ↦ inl (r, (sym (mode_eq_sound first mode e), all))
          | inr (r, other, i, n) ↦ inr (r, other, inr i, n)
        ])
  | inr e ↦
      rw (h, e)
        (inr (
          refl,
          (name, mode),
          inl refl,
          (λ q.
              let t : mode_eq first first ≡ false = subst (λ m. mode_eq first m ≡ false) q e in
              let f : true ≡ false = sym (mode_eq_refl first) ∙ t in cc),
        ))
]

-- Whatever order the map is visited in: the aggregate of the modes, the first of which is not empty, is
-- the first mode and all are it, or it is `Mixed` and one of the others differs from the first.
pub aggregate_drill_restore_mode-Agrees :
    (name : String) (first : RestoreMode) (modes : Assoc RestoreMode)
    → first ≢ no_mode
    → Agrees first modes (aggregate_drill_restore_mode ((name, first) ∷ modes))
unfolding aggregate_drill_restore_mode aggregate_from
aggregate_drill_restore_mode-Agrees name first modes n =
    aggregate_from-Agrees first modes (named first n)
  where
    named : (m : RestoreMode) → m ≢ no_mode → mode_eq m no_mode ≡ false
    named m k = elim (Bool-cases (mode_eq m no_mode)) [
      | inl e ↦ absurd (k (mode_eq_sound m no_mode e))
      | inr e ↦ e
    ]
