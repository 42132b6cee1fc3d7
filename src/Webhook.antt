-- ===== src/Webhook.antt =====
-- api/v1alpha3/ucloudmachine_webhook.go and ucloudmachinetemplate_webhook.go: what the API server
-- asks before it stores a machine or a template. The converter and the comparison are parameters.
pub mod Accepts
use cluster_api_provider_ucl.Prelude.{
  String, Bool, not, Option, none, some, List, [], ◌∷◌, ◌⊎◌, inl, inr, lookup, remove,
  if◌then◌else◌,
}
use cluster_api_provider_ucl.Go.{Error, errorf, wrap}
use cluster_api_provider_ucl.Api.Machine.{
  UcloudMachine, UcloudMachineTemplate, UcloudMachineTemplateSpec,
}

-- `map[string]interface{}`.
abbrev pub Fields : Type 0 → Type 0
Fields Value = List (String × Value)

-- The code outside of the repository. An `Object` is a `runtime.Object`.
pub record Machinery (Object Value : Type 0) : Type 0 where
  pub machine_object : UcloudMachine → Object
  -- `runtime.DefaultUnstructuredConverter.ToUnstructured`
  pub to_unstructured : Object → Error ⊎ Fields Value
  -- The type assertion `.(map[string]interface{})`.
  pub as_fields : Value → Option (Fields Value)
  -- `reflect.DeepEqual`
  pub deep_equal : Fields Value → Fields Value → Bool
  -- The type assertion `.(*UCloudMachineTemplate)`.
  pub as_template : Object → Option UcloudMachineTemplate
  pub deep_equal_spec : UcloudMachineTemplateSpec → UcloudMachineTemplateSpec → Bool

-- The errors of apimachinery's `field` that the webhooks build.
pub data FieldError : Type 0 where
  internal_error : Error → FieldError
  forbidden : String → String → FieldError

-- The answer of a validation: nil, `apierrors.NewInvalid` of a kind and a name, another error, or a
-- panic.
pub data Verdict : Type 0 where
  accepted : Verdict
  invalid : String → String → List FieldError → Verdict
  refused : Error → Verdict
  broken : String → Verdict

-- `ValidateCreate` and `ValidateDelete` of both types.
unfoldable pub validate_create : UcloudMachine → Verdict
validate_create r = accepted

unfoldable pub validate_delete : UcloudMachine → Verdict
validate_delete r = accepted

unfoldable pub validate_template_create : UcloudMachineTemplate → Verdict
validate_template_create r = accepted

unfoldable pub validate_template_delete : UcloudMachineTemplate → Verdict
validate_template_delete r = accepted

module _ {Object Value : Type 0} (M : Machinery Object Value) where
  abbrev rejected : UcloudMachine → FieldError → Verdict
  rejected r e = invalid "UCloudMachine" r.meta.name (e ∷ [])

  abbrev failed_conversion : UcloudMachine → String → Error → Verdict
  failed_conversion r message e = rejected r (internal_error (wrap e message []))

  -- `object["spec"].(map[string]interface{})`
  abbrev pub spec_of : Fields Value → Option (Fields Value)
  spec_of object = elim (lookup "spec" object) [ none ↦ none | some v ↦ M.as_fields v ]

  -- The fields that may change are deleted from both specs.
  abbrev pub frozen : Fields Value → Fields Value
  frozen spec =
      remove "additionalNetworkTags" (remove "additionalLabels" (remove "providerID" spec))

  unfoldable pub compare_specs : UcloudMachine → Fields Value → Fields Value → Verdict
  compare_specs r old_spec new_spec =
      if not (M.deep_equal (frozen old_spec) (frozen new_spec))
      then rejected r (forbidden "spec" "cannot be modified")
      else accepted

  -- The assertion on the new object comes first.
  unfoldable pub compare_objects : UcloudMachine → Fields Value → Fields Value → Verdict
  compare_objects r old_object new_object = elim (spec_of new_object) [
    | none ↦ broken "interface conversion"
    | some new_spec ↦ elim (spec_of old_object) [
      | none ↦ broken "interface conversion"
      | some old_spec ↦ compare_specs r old_spec new_spec
    ]
  ]

  -- `ValidateUpdate` of a machine.
  unfoldable pub validate_update : UcloudMachine → Object → Verdict
  validate_update r old = elim (M.to_unstructured (M.machine_object r)) [
    | inl e ↦ failed_conversion r "failed to convert new UCloudMachine to unstructured object" e
    | inr new_object ↦ elim (M.to_unstructured old) [
      | inl e ↦ failed_conversion r "failed to convert old UCloudMachine to unstructured object" e
      | inr old_object ↦ compare_objects r old_object new_object
    ]
  ]

  -- `ValidateUpdate` of a template.
  unfoldable pub validate_template_update : UcloudMachineTemplate → Object → Verdict
  validate_template_update r old = elim (M.as_template old) [
    | none ↦ broken "interface conversion"
    | some t ↦
        if not (M.deep_equal_spec r.spec t.spec)
        then refused (errorf "ucloudMachineTemplateSpec is immutable" [])
        else accepted
  ]
