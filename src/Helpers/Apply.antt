-- ===== src/Helpers/Apply.antt =====
-- `ApplyValidatingWebhookConfiguration`, `ApplyMutatingWebhookConfiguration`, `ApplyEndpoints`,
-- `ApplyDeployment` and `ApplyDirectly` of pkg/helpers/helpers.go. The merge of metadata, the deep
-- comparison, the codec and library-go's own apply functions are parameters.
pub mod Laws
mod Tests
use registration_operator.Common.{
  String, ◌<>◌, ℕ, ◌≡◌, Bool, true, false, ◌||◌, ◌&&◌, not, Option, none, some, List, [], ◌∷◌, ◌++◌,
  Error, failure, Result, ok, err, error_of, is_not_found, if◌then◌else◌, ◌>>=◌, cons_error,
}
use registration_operator.Common.Decimal.{quoted}
use registration_operator.Helpers.Generations.{GenerationStatus, find_generation_status}

-- A webhook configuration or endpoints: the metadata, and the one list that the code compares,
-- `Webhooks` or `Subsets`.
pub record Resource (M B : Type 0) : Type 0 where
  pub namespace : String
  pub name : String
  pub meta : M
  pub body : B

-- A typed client, over the states `S` of the cluster; the name is that of a namespace and an object.
pub record Calls (S T : Type 0) : Type 0 where
  pub get : S → String → String → Result T
  pub create : S → T → Result T × S
  pub update : S → T → Result T × S

-- `EnsureObjectMeta`, which says whether it changed the metadata, and `DeepEqual`.
pub record Library (M B : Type 0) : Type 0 where
  pub ensure_object_meta : M → M → Bool × M
  pub same : B → B → Bool

-- What an apply reports: whether it changed anything, and the error.
abbrev pub Report : Type 0
Report = Bool × Option Error

abbrev reported : {S T : Type 0} → Result T × S → Report × S
reported (r, t) = ((true, error_of r), t)

module _ {S M B : Type 0} (C : Calls S (Resource M B)) (L : Library M B) where
  -- The object that is sent is `existing`, not the copy that has the merged metadata.
  unfoldable pub update_webhook : S → Resource M B → Resource M B → Bool × M → Report × S
  update_webhook t required existing (changed, merged) =
      let hooks = if L.same existing.body required.body then existing.body else required.body in
      if changed || not (L.same existing.body required.body)
      then reported (C.update t (record existing { body = hooks }))
      else ((false, none), t)

  unfoldable pub apply_found_webhook : S → Resource M B → Result (Resource M B) → Report × S
  unfolding update_webhook
  apply_found_webhook t required (err e) =
      if is_not_found e then reported (C.create t required) else ((false, some e), t)
  apply_found_webhook t required (ok existing) =
      update_webhook t required existing (L.ensure_object_meta existing.meta required.meta)

  -- The two functions for webhook configurations are the same code; their objects have no namespace.
  unfoldable pub apply_webhook_configuration : S → Resource M B → Report × S
  unfolding apply_found_webhook
  apply_webhook_configuration t required = apply_found_webhook t required (C.get t "" required.name)

  unfoldable pub update_endpoints : S → Resource M B → Resource M B → Bool × M → Report × S
  update_endpoints t required existing (changed, merged) =
      if not changed && L.same existing.body required.body
      then ((false, none), t)
      else reported (C.update t (record existing { meta = merged; body = required.body }))

  unfoldable pub apply_found_endpoints : S → Resource M B → Result (Resource M B) → Report × S
  unfolding update_endpoints
  apply_found_endpoints t required (err e) =
      if is_not_found e then reported (C.create t required) else ((false, some e), t)
  apply_found_endpoints t required (ok existing) =
      update_endpoints t required existing (L.ensure_object_meta existing.meta required.meta)

  unfoldable pub apply_endpoints : S → Resource M B → Report × S
  unfolding apply_found_endpoints
  apply_endpoints t required =
      apply_found_endpoints t required (C.get t required.namespace required.name)

-- `resourceapply.ApplyResult`, as far as it is read; the type is the Go type's name.
pub record ApplyResult : Type 0 where
  pub file : String
  pub type_name : String
  pub changed : Bool
  pub error : Option Error

-- What a manifest decodes to.
pub data Required (M H E O : Type 0) : Type 0 where
  validating mutating : Resource M H → Required M H E O
  endpoints : Resource M E → Required M H E O
  generic : String → O → Required M H E O

module _ {S M H E O B W : Type 0} (V : Calls S (Resource M H)) (U : Calls S (Resource M H))
    (P : Calls S (Resource M E)) (LH : Library M H) (LE : Library M E)
    (decode : B → Result (Required M H E O)) (error_text : Error → String)
    (apply_generic : List String → S → W → List ApplyResult × (S × W))
    (manifests : String → W → Result B × W) where
  type_of : Required M H E O → String
  type_of (validating r) = "*v1.ValidatingWebhookConfiguration"
  type_of (mutating r) = "*v1.MutatingWebhookConfiguration"
  type_of (endpoints r) = "*v1.Endpoints"
  type_of (generic name o) = name

  -- The switch on the type; an object of another type is left to the library.
  apply_required : S → Required M H E O → Report × S
  unfolding apply_webhook_configuration apply_endpoints
  apply_required t (validating r) = apply_webhook_configuration V LH t r
  apply_required t (mutating r) = apply_webhook_configuration U LH t r
  apply_required t (endpoints r) = apply_endpoints P LE t r
  apply_required t (generic name o) = ((false, none), t)

  abbrev is_generic : Required M H E O → Bool
  is_generic (validating r) = false
  is_generic (mutating r) = false
  is_generic (endpoints r) = false
  is_generic (generic name o) = true

  apply_decoded : String → S → Result (Required M H E O) → (ApplyResult × Bool) × S
  unfolding apply_required type_of
  apply_decoded file t (err e) = (
    (
      record {
        file = file;
        type_name = "";
        changed = false;
        error = some (failure ("cannot decode " <> (quoted file <> (": " <> error_text e))));
      },
      false,
    ),
    t,
  )
  apply_decoded file t (ok o) =
      let ((changed, error), t') = apply_required t o in
      (
        (
          record { file = file; type_name = type_of o; changed = changed; error = error },
          is_generic o,
        ),
        t',
      )

  apply_read : String → S → Result B → (ApplyResult × Bool) × S
  unfolding apply_decoded
  apply_read file t (err e) = (
    (
      record {
        file = file;
        type_name = "";
        changed = false;
        error = some (failure ("missing " <> (quoted file <> (": " <> error_text e))));
      },
      false,
    ),
    t,
  )
  apply_read file t (ok b) = apply_decoded file t (decode b)

  -- The loop: the results, the files that are left to the library, and the states.
  unfoldable pub apply_special : List String → S → W → (List ApplyResult × List String) × (S × W)
  unfolding apply_read
  apply_special [] t w = (([], []), (t, w))
  apply_special (file ∷ files) t w =
      let (b, w') = manifests file w in
      let ((result, left), t') = apply_read file t b in
      let ((results, others), states) = apply_special files t' w' in
      ((result ∷ results, if left then file ∷ others else others), states)

  unfoldable pub apply_directly : List String → S → W → List ApplyResult × (S × W)
  unfolding apply_special
  apply_directly files t w =
      let ((results, others), (t', w')) = apply_special files t w in
      let (more, states) = apply_generic others t' w' in (results ++ more, states)

-- A deployment, as far as `ApplyDeployment` reads or writes it; `D` is the rest.
pub record Deployment (N D : Type 0) : Type 0 where
  pub name : String
  pub generation : ℕ
  pub placement : N
  pub rest : D

module _ {S N D B : Type 0} (decode : B → Result (Deployment N D))
    (new_generation_status : Deployment N D → GenerationStatus)
    (apply : S → Deployment N D → ℕ → Result (Deployment N D × Bool) × S)
    (error_text : Error → String) where
  abbrev last_of : GenerationStatus → Option GenerationStatus → GenerationStatus
  last_of status none = status
  last_of status (some current) = record status { last_generation = current.last_generation }

  deployed :
      String
      → GenerationStatus
      → Result (Deployment N D × Bool) × S
      → Result (Deployment N D × GenerationStatus) × S
  deployed file status (err e, t) =
      (err (failure (quoted file <> (" (*v1.Deployment): " <> error_text e))), t)
  deployed file status (ok (d, updated), t) =
      (ok (d, if updated then record status { last_generation = d.generation } else status), t)

  deploy_decoded :
      List GenerationStatus
      → N
      → String
      → S
      → Result (Deployment N D)
      → Result (Deployment N D × GenerationStatus) × S
  unfolding deployed find_generation_status
  deploy_decoded statuses placement file t (err e) =
      (err (failure (quoted file <> (": " <> error_text e))), t)
  deploy_decoded statuses placement file t (ok d) =
      let status =
        last_of (new_generation_status d)
          (find_generation_status statuses (new_generation_status d)) in
      deployed file status (apply t (record d { placement = placement }) status.last_generation)

  deploy_read :
      List GenerationStatus
      → N
      → String
      → S
      → Result B
      → Result (Deployment N D × GenerationStatus) × S
  unfolding deploy_decoded
  deploy_read statuses placement file t (err e) = (err e, t)
  deploy_read statuses placement file t (ok b) = deploy_decoded statuses placement file t (decode b)

  -- The node placement is the node selector and the tolerations. A manifest that decodes to another
  -- type than a deployment makes the code panic, and is left out.
  unfoldable pub apply_deployment :
      {W : Type 0}
      → (String → W → Result B × W)
      → List GenerationStatus
      → N
      → String
      → S
      → W
      → Result (Deployment N D × GenerationStatus) × (S × W)
  unfolding deploy_read
  apply_deployment manifests statuses placement file t w =
      let (b, w') = manifests file w in
      let (r, t') = deploy_read statuses placement file t b in (r, (t', w'))
