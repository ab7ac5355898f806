-- ===== src/Restore/Merge/Items.antt =====
-- The two loops of `mergeCompiledCandidates` as one loop over pairs of a candidate and a patch.
use testudo_operator.Base.{
  ◌≤ℤ◌, String, ◌≡◌, refl, ap, sym, ◌∙◌, subst, inl, inr, true, false, List, [], ◌∷◌, ◌++◌, arith,
  In, All-In, In-All, In-append_left, In-append_right, In-append_cases,
}
use testudo_operator.Base.Sort.{Ordered, sort_stable, Ordered-sort_stable, Ordered-append}
use testudo_operator.Restore.Types.{JsonPatch, Externals, CompiledCandidate}
use testudo_operator.Restore.Keys.{make_conflict_key}
use testudo_operator.Restore.Merge.{
  MergeState, Progress, running, failed, and_then, merge_patch, merge_patches, merge_rules,
  candidate_less,
}

abbrev pub Item : Type 0
Item = CompiledCandidate × JsonPatch

abbrev pub patch_items : CompiledCandidate → List JsonPatch → List Item
patch_items rule [] = []
patch_items rule (patch ∷ patches) = (rule, patch) ∷ patch_items rule patches

-- Every patch of every candidate, in the order of the loops.
abbrev pub items_of : List CompiledCandidate → List Item
items_of [] = []
items_of (rule ∷ rules) = patch_items rule rule.rule.patches ++ items_of rules

module _ (ext : Externals) where
  abbrev pub key_of : Item → String
  key_of it = make_conflict_key ext it.0.rule.conditions it.1

  unfoldable pub merge_items : List Item → MergeState → Progress
  merge_items [] st = running st
  merge_items (it ∷ items) st = and_then (merge_patch ext it.0 it.1 st) (merge_items items)

  and_then_assoc :
      (p : Progress) (f g : MergeState → Progress)
      → and_then (and_then p f) g ≡ and_then p (λ st. and_then (f st) g)
  and_then_assoc (running st) f g = refl
  and_then_assoc (failed summary e) f g = refl

  and_then_cong :
      (p : Progress) {f g : MergeState → Progress}
      → ((st : MergeState) → f st ≡ g st)
      → and_then p f ≡ and_then p g
  and_then_cong (running st) h = h st
  and_then_cong (failed summary e) h = refl

  merge_items-append :
      (xs ys : List Item) (st : MergeState)
      → merge_items (xs ++ ys) st ≡ and_then (merge_items xs st) (merge_items ys)
  unfolding merge_items
  merge_items-append [] ys st = refl
  merge_items-append (x ∷ xs) ys st =
      and_then_cong (merge_patch ext x.0 x.1 st) (merge_items-append xs ys)
      ∙ sym (and_then_assoc (merge_patch ext x.0 x.1 st) (merge_items xs) (merge_items ys))

  merge_patches-eq :
      (rule : CompiledCandidate) (patches : List JsonPatch) (st : MergeState)
      → merge_patches ext rule patches st ≡ merge_items (patch_items rule patches) st
  unfolding merge_items merge_patches
  merge_patches-eq rule [] st = refl
  merge_patches-eq rule (patch ∷ patches) st =
      and_then_cong (merge_patch ext rule patch st) (merge_patches-eq rule patches)

  pub merge_rules-eq :
      (rules : List CompiledCandidate) (st : MergeState)
      → merge_rules ext rules st ≡ merge_items (items_of rules) st
  unfolding merge_rules
  merge_rules-eq [] st = unfold merge_items in refl
  merge_rules-eq (rule ∷ rules) st =
      ap (λ p. and_then p (merge_rules ext rules)) (merge_patches-eq rule rule.rule.patches st)
      ∙ and_then_cong (merge_items (patch_items rule rule.rule.patches) st) (merge_rules-eq rules)
      ∙ sym (merge_items-append (patch_items rule rule.rule.patches) (items_of rules) st)

-- Membership in the flattened list.
In-patch_items :
    (rule : CompiledCandidate) (patch : JsonPatch) (patches : List JsonPatch)
    → In patch patches
    → In (rule, patch) (patch_items rule patches)
In-patch_items rule patch [] i = absurd i
In-patch_items rule patch (p ∷ ps) (inl e) = inl (ap (λ (q : JsonPatch). (rule, q)) e)
In-patch_items rule patch (p ∷ ps) (inr i) = inr (In-patch_items rule patch ps i)

pub In-items_of :
    (rule : CompiledCandidate) (patch : JsonPatch) (rules : List CompiledCandidate)
    → In rule rules
    → In patch rule.rule.patches
    → In (rule, patch) (items_of rules)
In-items_of rule patch [] i j = absurd i
In-items_of rule patch (r ∷ rs) (inl e) j =
    In-append_left (rule, patch) (patch_items r r.rule.patches) (items_of rs)
      (subst (λ (c : CompiledCandidate). In (rule, patch) (patch_items c c.rule.patches)) e
        (In-patch_items rule patch rule.rule.patches j))
In-items_of rule patch (r ∷ rs) (inr i) j =
    In-append_right (rule, patch) (patch_items r r.rule.patches) (items_of rs)
      (In-items_of rule patch rs i j)

In-patch_items_inv :
    (it : Item) (rule : CompiledCandidate) (patches : List JsonPatch)
    → In it (patch_items rule patches)
    → (it.0 ≡ rule) × In it.1 patches
In-patch_items_inv it rule [] i = absurd i
In-patch_items_inv it rule (p ∷ ps) (inl e) =
    (ap (λ (x : Item). x.0) e, inl (ap (λ (x : Item). x.1) e))
In-patch_items_inv it rule (p ∷ ps) (inr i) =
    let (e, j) = In-patch_items_inv it rule ps i in (e, inr j)

pub In-items_of_inv :
    (it : Item) (rules : List CompiledCandidate)
    → In it (items_of rules)
    → In it.0 rules × In it.1 it.0.rule.patches
In-items_of_inv it [] i = absurd i
In-items_of_inv it (r ∷ rs) i =
    elim (In-append_cases it (patch_items r r.rule.patches) (items_of rs) i) [
      | inl j ↦
          let (e, k) = In-patch_items_inv it r r.rule.patches j in
          (inl e, subst (λ (c : CompiledCandidate). In it.1 c.rule.patches) (sym e) k)
      | inr j ↦ let (a, b) = In-items_of_inv it rs j in (inr a, b)
    ]

-- The later item has no higher priority.
abbrev pub NotAbove : Item → Item → Type 0
NotAbove x y = y.0.priority ≤ℤ x.0.priority

abbrev Descending : CompiledCandidate → CompiledCandidate → Type 0
Descending a b = b.priority ≤ℤ a.priority

patch_items-Ordered :
    (rule : CompiledCandidate) (patches : List JsonPatch)
    → Ordered NotAbove (patch_items rule patches)
patch_items-Ordered rule [] = tt
patch_items-Ordered rule (p ∷ ps) = (
  In-All (NotAbove (rule, p)) (patch_items rule ps)
      (λ it i. rw ((In-patch_items_inv it rule ps i).0) (omega arith)),
  patch_items-Ordered rule ps,
)

items_of-Ordered :
    (rules : List CompiledCandidate) → Ordered Descending rules → Ordered NotAbove (items_of rules)
items_of-Ordered [] h = tt
items_of-Ordered (r ∷ rs) h =
    Ordered-append NotAbove (patch_items r r.rule.patches) (items_of rs)
      (patch_items-Ordered r r.rule.patches) (items_of-Ordered rs h.1)
      λ x y i j.
        rw ((In-patch_items_inv x r r.rule.patches i).0)
          (All-In (Descending r) rs y.0 h.0 (In-items_of_inv y rs j).0)

candidate_less-ge : (x y : CompiledCandidate) → candidate_less y x ≡ true → x.priority ≤ℤ y.priority
unfolding candidate_less
candidate_less-ge x y h = ground arith

candidate_less-le :
    (x y : CompiledCandidate) → candidate_less y x ≡ false → y.priority ≤ℤ x.priority
unfolding candidate_less
candidate_less-le x y h = ground arith

-- The loop meets the patches in order of falling priority.
pub sorted_items-Ordered :
    (rules : List CompiledCandidate)
    → Ordered NotAbove (items_of (sort_stable candidate_less rules))
sorted_items-Ordered rules = items_of-Ordered (sort_stable candidate_less rules) (
    Ordered-sort_stable candidate_less Descending (λ x y z h k. omega arith) candidate_less-ge
      candidate_less-le rules)
