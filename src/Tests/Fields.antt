-- ===== src/Tests/Fields.antt =====
-- Machines as a converter shows them, with a comparison of maps.
use cluster_api_provider_ucl.Prelude.{
  ◌≡◌, refl, sym, ◌∙◌, String, Bool, true, false, ◌&&◌, Bool-cases, inl, inr, Option, none, some,
  List, [], ◌∷◌, contains, lookup, ◌==◌, arith, eq_iff, eq_refl,
}
use cluster_api_provider_ucl.Api.Machine.{UcloudMachine}
use cluster_api_provider_ucl.Webhook.{Fields, Machinery}
use cluster_api_provider_ucl.Webhook.Accepts.{ComparesFields}

abbrev same : Option String → Option String → Bool
same none none = true
same (some a) (some b) = a == b
same _ _ = false

abbrev agree : List String → Fields String → Fields String → Bool
agree [] m n = true
agree (k ∷ ks) m n = same (lookup k m) (lookup k n) && agree ks m n

abbrev keys : Fields String → List String
keys [] = []
keys ((k, v) ∷ m) = k ∷ keys m

abbrev equal_fields : Fields String → Fields String → Bool
equal_fields m n = agree (keys m) m n && agree (keys n) m n

same_refl : (o : Option String) → same o o ≡ true
same_refl none = refl
same_refl (some a) = eq_refl a

same_eq : (o p : Option String) → same o p ≡ true → o ≡ p
same_eq none none e = refl
same_eq none (some b) e = cc
same_eq (some a) none e = cc
same_eq (some a) (some b) e = ground (arith, eq_iff a b)

agree-all :
    (ks : List String) (m n : Fields String)
    → ((k : String) → lookup k m ≡ lookup k n)
    → agree ks m n ≡ true
agree-all [] m n e = refl
agree-all (k ∷ ks) m n e = rw (e k) (rw (same_refl (lookup k n)) (agree-all ks m n e))

agree-lookup :
    (ks : List String) (m n : Fields String) (k : String)
    → agree ks m n ≡ true
    → contains ks k ≡ true
    → lookup k m ≡ lookup k n
agree-lookup [] m n k e p = cc
agree-lookup (j ∷ ks) m n k e p =
    ground (arith, same_eq (lookup j m) (lookup j n), eq_iff j k, agree-lookup ks m n k)

not_key : (m : Fields String) (k : String) → contains (keys m) k ≡ false → lookup k m ≡ none
not_key [] k p = refl
not_key ((j, v) ∷ m) k p = ground (arith, not_key m k)

both : (a b : Bool) → (a && b) ≡ true → (a ≡ true) × (b ≡ true)
both true b p = (refl, p)
both false b p = cc

equal-lookup :
    (m n : Fields String) → equal_fields m n ≡ true → (k : String) → lookup k m ≡ lookup k n
equal-lookup m n e k =
    let bs = both _ _ e in
    elim (Bool-cases (contains (keys m) k)) [
      | inl p ↦ agree-lookup (keys m) m n k bs.0 p
      | inr p ↦ elim (Bool-cases (contains (keys n) k)) [
        | inl q ↦ agree-lookup (keys n) m n k bs.1 q
        | inr q ↦ not_key m k p ∙ sym (not_key n k q)
      ]
    ]

-- An object is a machine; its spec is shown by the id of its image alone.
abbrev image_of : UcloudMachine → String
image_of m = elim m.spec.image_id [ none ↦ "" | some id ↦ id ]

abbrev pub machinery : Machinery UcloudMachine String
machinery = record {
  machine_object = λ m. m;
  to_unstructured = λ m. inr (("kind", "UCloudMachine") ∷ ("spec", image_of m) ∷ []);
  as_fields = λ image. some (("imageId", image) ∷ []);
  deep_equal = equal_fields;
  as_template = λ m. none;
  deep_equal_spec = λ a b. true;
}

pub machinery-ComparesFields : ComparesFields machinery
machinery-ComparesFields = record {
  equal = λ a b e k. equal-lookup a b e k;
  complete = λ a b e. rw (agree-all (keys a) a b e) (agree-all (keys b) a b e);
}
