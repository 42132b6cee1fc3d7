-- ===== src/Webhook/Accepts.antt =====
-- Which updates of a machine the webhook accepts.
use cluster_api_provider_ucl.Prelude.{
  ◌≡◌, refl, sym, ◌∙◌, ◌↔◌, String, Bool, true, false, ◌||◌, ◌==◌, Bool-cases, inl, inr, none, some,
  lookup, remove, if◌then◌else◌, lookup-remove, arith,
}
use cluster_api_provider_ucl.Api.Machine.{UcloudMachine}
use cluster_api_provider_ucl.Webhook.{
  Fields, Machinery, accepted, spec_of, frozen, compare_specs, compare_objects, validate_update,
}

-- The keys of a spec that an update may change.
abbrev pub may_change : String → Bool
may_change k = "additionalNetworkTags" == k || "additionalLabels" == k || "providerID" == k

module _ {Object Value : Type 0} (M : Machinery Object Value) where
  -- `reflect.DeepEqual` of two maps: they have the same values at the same keys.
  pub record ComparesFields : Type 0 where
    pub equal :
        (a b : Fields Value) → M.deep_equal a b ≡ true → (k : String) → lookup k a ≡ lookup k b
    pub complete :
        (a b : Fields Value) → ((k : String) → lookup k a ≡ lookup k b) → M.deep_equal a b ≡ true

  -- The two objects as the converter sees them, with their specs.
  pub record Converted (r : UcloudMachine) (old : Object) : Type 0 where
    pub old_object : Fields Value
    pub new_object : Fields Value
    pub old_spec : Fields Value
    pub new_spec : Fields Value
    pub old_converts : M.to_unstructured old ≡ inr old_object
    pub new_converts : M.to_unstructured (M.machine_object r) ≡ inr new_object
    pub old_has_spec : spec_of M old_object ≡ some old_spec
    pub new_has_spec : spec_of M new_object ≡ some new_spec

  lookup-frozen :
      (k : String) (spec : Fields Value)
      → lookup k (frozen M spec) ≡ (if may_change k then none else lookup k spec)
  lookup-frozen k spec = ground (
    arith,
    lookup-remove k "additionalNetworkTags" (remove "additionalLabels" (remove "providerID" spec)),
    lookup-remove k "additionalLabels" (remove "providerID" spec),
    lookup-remove k "providerID" spec,
  )

  validate_update-Converted :
      (r : UcloudMachine) (old : Object) (seen : Converted r old)
      → validate_update M r old ≡ compare_specs M r seen.old_spec seen.new_spec
  unfolding validate_update compare_objects
  validate_update-Converted r old seen =
      rw (seen.new_converts, validate_update)
        (rw (seen.old_converts, compare_objects)
          (rw (seen.new_has_spec, compare_objects) (rw (seen.old_has_spec, compare_objects) refl)))

  compare_specs-accepted :
      (r : UcloudMachine) (old new : Fields Value)
      → compare_specs M r old new ≡ accepted
      → M.deep_equal (frozen M old) (frozen M new) ≡ true
  unfolding compare_specs
  compare_specs-accepted r old new p = ground arith

  compare_specs-equal :
      (r : UcloudMachine) (old new : Fields Value)
      → M.deep_equal (frozen M old) (frozen M new) ≡ true
      → compare_specs M r old new ≡ accepted
  unfolding compare_specs
  compare_specs-equal r old new p = rw p refl

  kept-frozen :
      (k : String) (spec : Fields Value)
      → may_change k ≡ false
      → lookup k (frozen M spec) ≡ lookup k spec
  kept-frozen k spec e = lookup-frozen k spec ∙ rw e refl

  -- The frozen specs agree at a key if the specs do, or if the key may change.
  agree_frozen :
      (k : String) (old new : Fields Value)
      → (may_change k ≡ false → lookup k old ≡ lookup k new)
      → lookup k (frozen M old) ≡ lookup k (frozen M new)
  agree_frozen k old new same = elim (Bool-cases (may_change k)) [
    | inl e ↦ rw (lookup-frozen k old) (rw (lookup-frozen k new) (rw e refl))
    | inr e ↦ kept-frozen k old e ∙ same e ∙ sym (kept-frozen k new e)
  ]

  agree_there :
      (k : String) (old new : Fields Value)
      → may_change k ≡ false
      → lookup k (frozen M old) ≡ lookup k (frozen M new)
      → lookup k old ≡ lookup k new
  agree_there k old new e p = sym (kept-frozen k old e) ∙ p ∙ kept-frozen k new e

  -- Take an update for which the converter and the two type assertions succeed, and a comparison of
  -- maps that holds exactly if they have the same values at the same keys. Then `ValidateUpdate` of a
  -- machine accepts the update if and only if the two specs have the same value at every key but
  -- providerID, additionalLabels and additionalNetworkTags.
  pub validate_update-accepted :
      (r : UcloudMachine) (old : Object) (compares : ComparesFields) (seen : Converted r old)
      → (validate_update M r old ≡ accepted)
        ↔ ((k : String) → may_change k ≡ false → lookup k seen.old_spec ≡ lookup k seen.new_spec)
  validate_update-accepted r old compares seen = (
    λ p k e. agree_there k seen.old_spec seen.new_spec e (
        compares.equal _ _
          (compare_specs-accepted r _ _ (sym (validate_update-Converted r old seen) ∙ p)) k),
    λ same.
        validate_update-Converted r old seen
        ∙ compare_specs-equal r _ _
            (compares.complete _ _ (λ k. agree_frozen k seen.old_spec seen.new_spec (same k))),
  )
