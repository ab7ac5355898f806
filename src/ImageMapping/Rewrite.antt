-- ===== src/ImageMapping/Rewrite.antt =====
-- `RewriteImage` takes the longest registry that fits.
use Prim.Native.String.{len, ◌++◌}
use text.Mathlib.TextLemmas.{append-nil, append_assoc, append_cancel_left}
use testudo_operator.Base.{
  ◌≤◌, String, ◌≡◌, refl, sym, ap, ◌∙◌, ◌⊎◌, inl, inr, true, false, Option, none, some, List, ◌==◌,
  eq_iff, arith, All, In-All, In, reverse_onto, In-reverse_onto, In-reverse_onto_inv, Bool-cases,
  Option-cases, if◌then◌else◌,
}
use testudo_operator.Base.Text.{
  trim_space, strip_prefix, has_prefix, strip_prefix-append, strip_prefix_eq,
}
use testudo_operator.ImageMapping.Registry.{
  RegistryMapping, normalize_registry, matches, longer, best_mapping, trim_prefix, outcome,
  rewritten_by, rewrite_image,
}

abbrev pub source_of : RegistryMapping → String
source_of mapping = normalize_registry mapping.source_registry

abbrev pub target_of : RegistryMapping → String
target_of mapping = normalize_registry mapping.target_registry

-- The mapping fits, and no mapping that fits has a longer registry.
pub record IsLongest (current : String) (best : RegistryMapping) (mappings : List RegistryMapping)
    : Type 0 where
  pub fits : matches current best ≡ true
  pub longest :
      (m : RegistryMapping)
      → In m mappings
      → matches current m ≡ true
      → len (source_of m) ≤ len (source_of best)

-- What the loop has found: nothing that fits, or the longest that fits.
abbrev Found : String → Option RegistryMapping → List RegistryMapping → Type 0
Found current none met = (m : RegistryMapping) → In m met → matches current m ≡ false
Found current (some best) met = In best met × IsLongest current best met

module _ (current : String) (m : RegistryMapping) (met : List RegistryMapping) where
  abbrev next : Option RegistryMapping → Option RegistryMapping
  next best = if matches current m then (if longer m best then some m else best) else best

  step-Found :
      (best : Option RegistryMapping)
      → Found current best met
      → Found current (next best) (List.◌∷◌ m met)
  step-Found none h = elim (Bool-cases (matches current m)) [
    | inl fits ↦ rw fits (
      inl refl,
      record {
        fits = fits;
        longest = λ n i f. elim i [ inl e ↦ rw e (omega arith) | inr j ↦ cc (h n j) ];
      },
    )
    | inr other ↦ rw other (λ n i. elim i [ inl e ↦ rw e other | inr j ↦ h n j ])
  ]
  step-Found (some best) (i, h) = elim (Bool-cases (matches current m)) [
    | inr other ↦ rw other (
      inr i,
      record {
        fits = h.fits;
        longest = λ n j f. elim j [ inl e ↦ cc (ap (matches current) e) | inr k ↦ h.longest n k f ];
      },
    )
    | inl fits ↦ rw fits (elim (Bool-cases (longer m (some best))) [
      | inl more ↦ rw more (
        inl refl,
        record {
          fits = fits;
          longest = λ n j f. elim j [
            | inl e ↦ rw e (omega arith)
            | inr k ↦
                let le : len (source_of n) ≤ len (source_of best) = h.longest n k f in ground arith
          ];
        },
      )
      | inr less ↦ rw less (
        inr i,
        record {
          fits = h.fits;
          longest = λ n j f. elim j [ inl e ↦ rw e (ground arith) | inr k ↦ h.longest n k f ];
        },
      )
    ])
  ]

best_mapping-Found :
    (current : String) (best : Option RegistryMapping) (ms met : List RegistryMapping)
    → Found current best met
    → Found current (best_mapping current best ms) (reverse_onto ms met)
unfolding best_mapping
best_mapping-Found current best List.[] met h = h
best_mapping-Found current best (List.◌∷◌ m ms) met h =
    best_mapping-Found current (next current m met best) ms (List.◌∷◌ m met)
      (step-Found current m met best h)

-- Behind the registry comes nothing, or a path.
abbrev pub IsTail : String → Type 0
IsTail rest = (rest ≡ "") ⊎ ((below : String) × (rest ≡ "/" ++ below))

matches-IsTail :
    (current : String) (m : RegistryMapping)
    → matches current m ≡ true
    → (rest : String) × (current ≡ source_of m ++ rest) × IsTail rest
unfolding matches has_prefix
matches-IsTail current m h = elim (Bool-cases (current == source_of m)) [
  | inl same ↦
      ("", (eq_iff current (source_of m)).0 same ∙ sym (append-nil (source_of m)), inl refl)
  | inr other ↦ elim (Option-cases (strip_prefix current (source_of m ++ "/"))) [
    | inl none_left ↦ ground arith
    | inr (below, found) ↦ (
      "/" ++ below,
      strip_prefix_eq current (source_of m ++ "/") below found
          ∙ append_assoc (source_of m) "/" below,
      inr (below, refl),
    )
  ]
]

pub rewritten_by-append :
    (m : RegistryMapping) (rest : String)
    → rewritten_by (source_of m ++ rest) m ≡ target_of m ++ rest
rewritten_by-append m rest = elim (Bool-cases ((source_of m ++ rest) == source_of m)) [
  | inr other ↦ rw (other, strip_prefix-append (source_of m) rest, trim_prefix)
  | inl same ↦
      let nothing : rest ≡ "" =
        append_cancel_left (source_of m) rest ""
          ((eq_iff (source_of m ++ rest) (source_of m)).0 same ∙ sym (append-nil (source_of m))) in
      rw (same, nothing, append-nil)
]

-- One of the mappings, the longest that fits, replaces its registry and keeps what follows.
abbrev pub Rewritten : String → String → List RegistryMapping → Type 0
Rewritten image out mappings =
    (best : RegistryMapping) × In best mappings
    × IsLongest (trim_space image) best mappings
    × (rest : String) × IsTail rest
    × (trim_space image ≡ source_of best ++ rest)
    × (out ≡ target_of best ++ rest)

outcome-Rewritten :
    (image out : String) (mappings : List RegistryMapping) (o : Option RegistryMapping)
    → Found (trim_space image) o (reverse_onto mappings List.[])
    → outcome image o ≡ (out, true)
    → Rewritten image out mappings
outcome-Rewritten image out mappings none h e = cc
outcome-Rewritten image out mappings (some best) (i, h) e =
    let (rest, split, tail) = matches-IsTail (trim_space image) best h.fits in
    (
      best,
      (elim (In-reverse_onto_inv best mappings List.[] i) [ inl j ↦ j | inr f ↦ absurd f ]),
      record {
        fits = h.fits;
        longest = λ m j f. h.longest m (In-reverse_onto m mappings List.[] j) f;
      },
      rest,
      tail,
      split,
      cc (e, ap (λ current. rewritten_by current best) split, rewritten_by-append best rest),
    )

-- When an image is rewritten, the mapping used is one of the mappings that fit with the longest
-- source registry, its registry is replaced by its target, and what follows is kept.
pub rewrite_image-longest :
    (image out : String) (mappings : List RegistryMapping)
    → rewrite_image image mappings ≡ (out, true)
    → Rewritten image out mappings
unfolding rewrite_image
rewrite_image-longest image out mappings e = elim (Bool-cases (trim_space image == "")) [
  | inl blank ↦ ground arith
  | inr named ↦
      outcome-Rewritten image out mappings (best_mapping (trim_space image) none mappings)
        (best_mapping-Found (trim_space image) none mappings List.[] (λ n i. absurd i))
        (rw named at e)
]

-- When an image is not rewritten, it is returned as it was, and it is blank or no mapping fits it.
pub rewrite_image-unmatched :
    (image out : String) (mappings : List RegistryMapping)
    → rewrite_image image mappings ≡ (out, false)
    → (out ≡ image)
      × ((trim_space image ≡ "") ⊎ All (λ m. matches (trim_space image) m ≡ false) mappings)
unfolding rewrite_image
rewrite_image-unmatched image out mappings e = elim (Bool-cases (trim_space image == "")) [
  | inl blank ↦ (ground arith, inl ((eq_iff (trim_space image) "").0 blank))
  | inr named ↦
      go (best_mapping (trim_space image) none mappings)
        (best_mapping-Found (trim_space image) none mappings List.[] (λ n i. absurd i))
        (rw named at e)
]
  where
    go :
        (o : Option RegistryMapping)
        → Found (trim_space image) o (reverse_onto mappings List.[])
        → outcome image o ≡ (out, false)
        → (out ≡ image)
          × ((trim_space image ≡ "") ⊎ All (λ m. matches (trim_space image) m ≡ false) mappings)
    go none h q = (
      cc,
      inr (
          In-All (λ m. matches (trim_space image) m ≡ false) mappings
            (λ m i. h m (In-reverse_onto m mappings List.[] i))),
    )
    go (some best) h q = cc
