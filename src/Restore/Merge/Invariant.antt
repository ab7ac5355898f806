-- ===== src/Restore/Merge/Invariant.antt =====
-- What holds of the loop of `mergeCompiledCandidates` after the items that it has met.
use testudo_operator.Base.{
  ◌≤ℤ◌, String, ◌≡◌, refl, sym, ap, subst, ◌∙◌, ◌⊎◌, inl, inr, true, false, none, some, List, [],
  ◌∷◌, ◌++◌, In, Distinct, Distinct-snoc, In-append_left, In-append_right, In-append_cases,
}
use testudo_operator.Base.Assoc.{Assoc, lookup, insert, lookup-insert_self, lookup-insert_cases}
use testudo_operator.Restore.Types.{Externals, SelectedPatch}
use testudo_operator.Restore.Merge.Items.{Item, key_of}

-- Why a selected patch may stand where the item asked for its place: they have one value, or the
-- selected candidate is a protecting system rule, or the item is not, and has no higher priority.
abbrev pub Beats : SelectedPatch → Item → Type 0
Beats s it =
    (s.patch.value ≡ it.1.value)
    ⊎ (s.candidate.is_system_protect ≡ true)
    ⊎ ((it.0.is_system_protect ≡ false) × (it.0.priority ≤ℤ s.candidate.priority))

abbrev pub as_selected : Item → SelectedPatch
as_selected it = record { candidate = it.0; patch = it.1 }

abbrev pub as_item : SelectedPatch → Item
as_item s = (s.candidate, s.patch)

module _ (ext : Externals) where
  pub record Holds (met : List Item) (selected : Assoc SelectedPatch) (order : List String)
      : Type 0 where
    pub covered :
        (it : Item)
        → In it met
        → (s : SelectedPatch) × (lookup (key_of ext it) selected ≡ some s) × Beats s it
    pub chosen :
        (k : String) (s : SelectedPatch)
        → lookup k selected ≡ some s
        → In (as_item s) met × (key_of ext (as_item s) ≡ k)
    pub listed : (k : String) (s : SelectedPatch) → lookup k selected ≡ some s → In k order
    pub known : (k : String) → In k order → (s : SelectedPatch) × (lookup k selected ≡ some s)
    pub distinct : Distinct order

  module _ (it : Item) (met : List Item) (selected : Assoc SelectedPatch) (order : List String)
      (h : Holds met selected order) where
    pub Holds-skip :
        (s : SelectedPatch)
        → lookup (key_of ext it) selected ≡ some s
        → Beats s it
        → Holds (it ∷ met) selected order
    Holds-skip s found beats = record {
      covered = λ x i. elim i [ inl e ↦ rw e (s, found, beats) | inr j ↦ h.covered x j ];
      chosen = λ k t f. (inr (h.chosen k t f).0, (h.chosen k t f).1);
      listed = h.listed;
      known = h.known;
      distinct = h.distinct;
    }

    abbrev pub key : String
    key = key_of ext it

    abbrev pub put : Assoc SelectedPatch
    put = insert key (as_selected it) selected

    put_covered :
        ((x : Item) → In x met → key ≡ key_of ext x → Beats (as_selected it) x)
        → (x : Item) → In x (it ∷ met)
        → (s : SelectedPatch) × (lookup (key_of ext x) put ≡ some s) × Beats s x
    put_covered beats x (inl e) =
        rw e (as_selected it, lookup-insert_self key (as_selected it) selected, inl refl)
    put_covered beats x (inr j) =
        elim (lookup-insert_cases key (key_of ext x) (as_selected it) selected) [
          | inl (e, f) ↦ (as_selected it, f, beats x j e)
          | inr (e, f) ↦ let (s, g, b) = h.covered x j in (s, f ∙ g, b)
        ]

    put_chosen :
        (k : String) (s : SelectedPatch)
        → lookup k put ≡ some s
        → In (as_item s) (it ∷ met) × (key_of ext (as_item s) ≡ k)
    put_chosen k s f = elim (lookup-insert_cases key k (as_selected it) selected) [
      | inl (e, g) ↦
          let q : as_selected it ≡ s = cc in
          (inl (ap as_item (sym q)), ap (λ t. key_of ext (as_item t)) (sym q) ∙ e)
      | inr (e, g) ↦ let (i, q) = h.chosen k s (sym g ∙ f) in (inr i, q)
    ]

    pub Holds-select :
        (s : SelectedPatch)
        → lookup key selected ≡ some s
        → ((x : Item) → In x met → Beats (as_selected it) x)
        → Holds (it ∷ met) put order
    Holds-select s found beats = record {
      covered = put_covered (λ x j e. beats x j);
      chosen = put_chosen;
      listed = λ k t f. elim (lookup-insert_cases key k (as_selected it) selected) [
        | inl (e, g) ↦ h.listed k s (subst (λ j. lookup j selected ≡ some s) e found)
        | inr (e, g) ↦ h.listed k t (sym g ∙ f)
      ];
      known = λ k i. elim (lookup-insert_cases key k (as_selected it) selected) [
        | inl (e, g) ↦ (as_selected it, g)
        | inr (e, g) ↦ let (t, f) = h.known k i in (t, g ∙ f)
      ];
      distinct = h.distinct;
    }

    -- Where the map has no entry for the key, no item before had it.
    not_met :
        lookup key selected ≡ none
        → (x : Item) → In x met
        → key ≡ key_of ext x
        → Beats (as_selected it) x
    not_met fresh x j e =
        let (s, f, b) = h.covered x j in
        absurd (cc (subst (λ k. lookup k selected ≡ some s) (sym e) f))

    pub Holds-enter : lookup key selected ≡ none → Holds (it ∷ met) put (order ++ key ∷ [])
    Holds-enter fresh = record {
      covered = put_covered (not_met fresh);
      chosen = put_chosen;
      listed = λ k t f. elim (lookup-insert_cases key k (as_selected it) selected) [
        | inl (e, g) ↦ In-append_right k order (key ∷ []) (inl (sym e))
        | inr (e, g) ↦ In-append_left k order (key ∷ []) (h.listed k t (sym g ∙ f))
      ];
      known = λ k i. elim (lookup-insert_cases key k (as_selected it) selected) [
        | inl (e, g) ↦ (as_selected it, g)
        | inr (e, g) ↦ elim (In-append_cases k order (key ∷ []) i) [
          | inl j ↦ let (t, f) = h.known k j in (t, g ∙ f)
          | inr (inl q) ↦ absurd (e (sym q))
          | inr (inr q) ↦ absurd q
        ]
      ];
      distinct =
          Distinct-snoc order key h.distinct (λ i. let (t, f) = h.known key i in cc (fresh, f));
    }
