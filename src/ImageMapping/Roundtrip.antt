-- ===== src/ImageMapping/Roundtrip.antt =====
-- `RewriteImage` is undone by the exchanged mapping.
use Prim.Native.String.{◌++◌}
use text.Mathlib.TextLemmas.{append-nil, append_assoc, append-eq-nil_iff}
use testudo_operator.Base.{
  String, ◌≡◌, ◌≢◌, refl, sym, ap, ◌∙◌, inl, inr, true, false, some, List, ◌==◌, eq_iff, arith,
  Bool-cases,
}
use testudo_operator.Base.Text.{trim_space, strip_prefix, has_prefix, strip_prefix-append}
use testudo_operator.ImageMapping.Registry.{RegistryMapping, matches, best_mapping, rewrite_image}
use testudo_operator.ImageMapping.Rewrite.{
  source_of, target_of, IsTail, rewritten_by-append, rewrite_image-longest,
}

abbrev pub exchanged : RegistryMapping → RegistryMapping
exchanged m = record {
  source_alias = m.target_alias;
  source_registry = m.target_registry;
  target_alias = m.source_alias;
  target_registry = m.source_registry;
}

matches-append :
    (m : RegistryMapping) (rest : String)
    → source_of m ≢ ""
    → IsTail rest
    → matches (source_of m ++ rest) m ≡ true
unfolding matches has_prefix
matches-append m rest named (inl e) =
    let same : (source_of m ++ rest) == source_of m ≡ true =
      (eq_iff (source_of m ++ rest) (source_of m)).1 (rw (e, append-nil)) in
    ground (arith, eq_iff (source_of m) "")
matches-append m rest named (inr (below, e)) =
    let found : strip_prefix (source_of m ++ rest) (source_of m ++ "/") ≡ some below =
      rw (e, ← append_assoc) (strip_prefix-append (source_of m ++ "/") below) in
    ground (arith, eq_iff (source_of m) "")

-- An image that fits one mapping is rewritten by it.
rewrite_image-one :
    (image rest : String) (m : RegistryMapping)
    → trim_space image ≡ source_of m ++ rest
    → source_of m ≢ ""
    → IsTail rest
    → rewrite_image image (List.◌∷◌ m List.[]) ≡ (target_of m ++ rest, true)
unfolding rewrite_image best_mapping
rewrite_image-one image rest m split named tail =
    let filled : trim_space image == "" ≡ false = elim (Bool-cases (trim_space image == "")) [
      | inr f ↦ f
      | inl t ↦ absurd (
          named
            ((append-eq-nil_iff {p = source_of m} {q = rest}).0
              (sym split ∙ (eq_iff (trim_space image) "").0 t)).0)
    ] in
    let fits : matches (trim_space image) m ≡ true = rw split (matches-append m rest named tail) in
    rw (filled, fits, split, rewritten_by-append) refl

-- An image that one mapping rewrites is restored, without the space at its ends, by the mapping with
-- source and target exchanged, when the target registry is not blank and the rewritten image has no
-- space at its ends.
pub rewrite_image-roundtrip :
    (image out : String) (m : RegistryMapping)
    → rewrite_image image (List.◌∷◌ m List.[]) ≡ (out, true)
    → target_of m ≢ ""
    → trim_space out ≡ out
    → rewrite_image out (List.◌∷◌ (exchanged m) List.[]) ≡ (trim_space image, true)
rewrite_image-roundtrip image out m e named trimmed =
    let (best, i, longest, rest, tail, split, made) =
      rewrite_image-longest image out (List.◌∷◌ m List.[]) e in
    let same : best ≡ m = elim i [ inl q ↦ q | inr f ↦ absurd f ] in
    let out' : trim_space out ≡ source_of (exchanged m) ++ rest =
      trimmed ∙ made ∙ ap (λ b. target_of b ++ rest) same in
    rewrite_image-one out rest (exchanged m) out' named tail
    ∙ ap (λ t. (t, true)) (sym (split ∙ ap (λ b. source_of b ++ rest) same))
