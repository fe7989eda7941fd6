-- ===== src/Helpers/Apply/Laws.antt =====
-- What an apply leaves on the server.
use registration_operator.Common.{
  String, ◌≡◌, refl, Bool, true, false, ◌||◌, not, none, some, Result, ok, err, error_of-eq-none,
  is_not_found, if◌then◌else◌,
}
use registration_operator.Helpers.Apply.{
  Resource, Calls, Library, Report, reported, update_webhook, apply_found_webhook,
  apply_webhook_configuration,
}

module _ {S M B : Type 0} where
  -- What a server does. `KeepsMeta` and `KeepsBody` are between what was sent and what is stored: the server
  -- may fill in fields that were not set (a uid, a default), and something may be stored as it was sent.
  -- A write that succeeds is read back.
  pub record IsLawful (KeepsMeta : M → M → Type 0) (KeepsBody : B → B → Type 0)
      (C : Calls S (Resource M B)) : Type 0 where
    pub meta_refl : (m : M) → KeepsMeta m m
    pub body_refl : (b : B) → KeepsBody b b
    pub get-place :
        (t : S) (ns name : String) {o : Resource M B}
        → C.get t ns name ≡ ok o
        → (o.namespace ≡ ns) × (o.name ≡ name)
    pub get-create :
        (t : S) (o : Resource M B) {p : Resource M B}
        → (C.create t o).0 ≡ ok p
        → (C.get (C.create t o).1 o.namespace o.name ≡ ok p)
          × (KeepsMeta o.meta p.meta × KeepsBody o.body p.body)
    pub get-update :
        (t : S) (o : Resource M B) {p : Resource M B}
        → (C.update t o).0 ≡ ok p
        → (C.get (C.update t o).1 o.namespace o.name ≡ ok p)
          × (KeepsMeta o.meta p.meta × KeepsBody o.body p.body)

module _ {S M B : Type 0} (C : Calls S (Resource M B)) (L : Library M B)
    (sound : (a b : B) → L.same a b ≡ true → a ≡ b) (KeepsMeta : M → M → Type 0)
    (KeepsBody : B → B → Type 0) (law : IsLawful KeepsMeta KeepsBody C) where
  -- The server has what was required and metadata of which `P` holds at the place.
  abbrev pub Stores : (M → Type 0) → String → Resource M B → S → Type 0
  Stores P ns required t =
      (o : Resource M B) × ((C.get t ns required.name ≡ ok o)
        × (KeepsBody required.body o.body × P o.meta))

  -- The metadata that a webhook configuration has after an apply.
  abbrev pub Kept : Resource M B → Result (Resource M B) → M → Type 0
  Kept required (ok existing) m = KeepsMeta existing.meta m
  Kept required (err e) m = KeepsMeta required.meta m

  either :
      (P : S → Type 0) (b : Bool) (x y : Report × S)
      → (b ≡ true → x.0.1 ≡ none → P x.1)
      → (b ≡ false → y.0.1 ≡ none → P y.1)
      → (if b then x else y).0.1 ≡ none
      → P (if b then x else y).1
  either P true x y f g = f refl
  either P false x y f g = g refl

  created :
      (t : S) (ns : String) (required : Resource M B)
      → required.namespace ≡ ns
      → (reported (C.create t required)).0.1 ≡ none
      → Stores (KeepsMeta required.meta) ns required (reported (C.create t required)).1
  created t ns required place h =
      let (p, fine) = error_of-eq-none (C.create t required).0 h in
      let (got, (meta, body)) = law.get-create t required fine in
      (p, (rw (← place) got, (body, meta)))

  updated :
      (t : S) (ns : String) (required sent : Resource M B) (meta_of : M)
      → (sent.namespace ≡ ns) × (sent.name ≡ required.name)
      → sent.body ≡ required.body
      → sent.meta ≡ meta_of
      → (reported (C.update t sent)).0.1 ≡ none
      → Stores (KeepsMeta meta_of) ns required (reported (C.update t sent)).1
  updated t ns required sent meta_of (place, name) same holds h =
      let (p, fine) = error_of-eq-none (C.update t sent).0 h in
      let (got, (meta, body)) = law.get-update t sent fine in
      (p, (rw (← place, ← name) got, (rw same at body, rw holds at meta)))

  hooks_required : (a b : B) → (if L.same a b then a else b) ≡ b
  hooks_required a b = go (L.same a b) refl
    where
      go : (v : Bool) → L.same a b ≡ v → (if v then a else b) ≡ b
      go true fn = sound a b fn
      go false fn = refl

  unchanged_same : (c s : Bool) → (c || not s) ≡ false → s ≡ true
  unchanged_same true s h = cc
  unchanged_same false true h = refl
  unchanged_same false false h = cc

  webhook_found :
      (t : S) (required : Resource M B) (r : Result (Resource M B))
      → required.namespace ≡ ""
      → C.get t "" required.name ≡ r
      → (apply_found_webhook C L t required r).0.1 ≡ none
      → Stores (Kept required r) "" required (apply_found_webhook C L t required r).1
  unfolding apply_found_webhook update_webhook
  webhook_found t required (err e) cluster fn =
      either (Stores (KeepsMeta required.meta) "" required) (is_not_found e)
        (reported (C.create t required)) ((false, some e), t)
        (λ _ h. created t "" required cluster h) (λ _ h. cc)
  webhook_found t required (ok existing) cluster fn =
      either (Stores (KeepsMeta existing.meta) "" required)
        ((L.ensure_object_meta existing.meta required.meta).0
          || not (L.same existing.body required.body))
        (reported (
          C.update t (record existing {
            body = if L.same existing.body required.body then existing.body else required.body;
          })))
        ((false, none), t)
        (λ _ h.
          updated t "" required _ existing.meta (law.get-place t "" required.name fn)
            (hooks_required existing.body required.body) refl h)
        (λ same h. (
          existing,
          (
            fn,
            (
              rw (sound existing.body required.body (unchanged_same _ _ same))
                  (law.body_refl required.body),
              law.meta_refl existing.meta,
            ),
          ),
        ))

  -- An apply of a webhook configuration that reports no error leaves on the server what the server makes
  -- of the required webhooks, with what it makes of the manifest's metadata if the configuration was
  -- missing, and else of the metadata that was there before: the manifest's is never sent then.
  pub apply_webhook_configuration_stored :
      (t : S) (required : Resource M B)
      → required.namespace ≡ ""
      → (apply_webhook_configuration C L t required).0.1 ≡ none
      → (o : Resource M B) × ((C.get (apply_webhook_configuration C L t required).1 "" required.name
            ≡ ok o)
          × (KeepsBody required.body o.body × Kept required (C.get t "" required.name) o.meta))
  unfolding apply_webhook_configuration
  apply_webhook_configuration_stored t required cluster =
      webhook_found t required (C.get t "" required.name) cluster refl
