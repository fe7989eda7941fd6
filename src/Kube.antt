-- ===== src/Kube.antt =====
-- The clients of the Kubernetes API, which the program only calls: one record of operations over
-- an unknown cluster state, for one kind of object. `IsLawful` is what the code relies on.
pub mod Memory
use registration_operator.Common.{
  String, Option, none, some, ◌≡◌, Error, Result, ok, err, not_found, is_not_found, true, ◌==◌,
  string_eq, if◌then◌else◌,
}

-- `Get`, `Create`, `Update` and `Delete` of a typed client.
pub record Client (T : Type 0) : Type 1 where
  pub State : Type 0
  pub get : State → String → Result T
  pub create : State → T → Result T × State
  pub update : State → T → Result T × State
  pub delete : State → String → Option Error × State

-- A request that fails changes nothing; a create or update that succeeds changes the named object
-- only, and the server keeps what `Keeps` speaks of (it may set a resource version, for example).
-- A delete that succeeds is only accepted: the object may go later.
pub record IsLawful {T : Type 0} (name : T → String) (Keeps : T → T → Type 0) (C : Client T)
    : Type 0 where
  pub get-name : (s : C.State) (k : String) {o : T} → C.get s k ≡ ok o → name o ≡ k
  pub create_err :
      (s : C.State) (o : T) {e : Error} → (C.create s o).0 ≡ err e → (C.create s o).1 ≡ s
  pub create-keeps : (s : C.State) (o : T) {p : T} → (C.create s o).0 ≡ ok p → Keeps o p
  pub get-create :
      (s : C.State) (o : T) {p : T} (j : String)
      → (C.create s o).0 ≡ ok p
      → C.get (C.create s o).1 j ≡ (if j == name o then ok p else C.get s j)
  pub update_err :
      (s : C.State) (o : T) {e : Error} → (C.update s o).0 ≡ err e → (C.update s o).1 ≡ s
  pub update-keeps : (s : C.State) (o : T) {p : T} → (C.update s o).0 ≡ ok p → Keeps o p
  pub get-update :
      (s : C.State) (o : T) {p : T} (j : String)
      → (C.update s o).0 ≡ ok p
      → C.get (C.update s o).1 j ≡ (if j == name o then ok p else C.get s j)
  pub delete_err :
      (s : C.State) (k : String) {e : Error} → (C.delete s k).0 ≡ some e → (C.delete s k).1 ≡ s
  -- A delete makes nothing appear; an object with finalizers may stay after one that succeeds.
  pub get-delete :
      (s : C.State) (k j : String)
      → (C.delete s k).0 ≡ none
      → C.get s j ≡ err (not_found j)
      → C.get (C.delete s k).1 j ≡ err (not_found j)
  pub delete_absent :
      (s : C.State) (k : String) {e : Error}
      → (C.delete s k).0 ≡ some e
      → is_not_found e ≡ true
      → C.get s k ≡ err (not_found k)
