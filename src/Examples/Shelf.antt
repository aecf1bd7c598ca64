-- ===== src/Examples/Shelf.antt =====
-- A cluster that is a list of objects, the newest first, which keeps what it stores.
use theatre.Prelude.{
  ◌≡◌, refl, sym, ◌∙◌, ap, ◌==◌, eq_iff, ◌&&◌, List, [], ◌∷◌, ok, err, Result, arith, if◌then◌else◌,
}
use theatre.Prelude.Results.{api, not_found}
use theatre.Kubernetes.{NamespacedName, Client}
use theatre.Recutil.Converge.{IsStore}

-- The first object of a name.
unfoldable pub shelved :
    {Obj : Type 0} → (Obj → NamespacedName) → NamespacedName → List Obj → Result Obj
shelved name_of n [] = err (api not_found)
shelved name_of n (o ∷ os) =
    let rest = shelved name_of n os in
    if (name_of o).namespace == n.namespace && (name_of o).name == n.name then ok o else rest

-- The client, which stores what `fill` makes of an object.
abbrev pub filling_shelf :
    {Obj : Type 0} → (Obj → Obj) → (Obj → NamespacedName) → Client (List Obj) Obj
filling_shelf fill name_of = record {
  get = shelved name_of;
  create = λ o os. (ok (fill o), fill o ∷ os);
  update = λ o os. (ok (fill o), fill o ∷ os);
  delete = λ o os. (ok tt, os);
}

abbrev pub shelf : {Obj : Type 0} → (Obj → NamespacedName) → Client (List Obj) Obj
shelf name_of = filling_shelf (λ o. o) name_of

shelved-newest :
    {Obj : Type 0} (name_of : Obj → NamespacedName) (o : Obj) (os : List Obj)
    → shelved name_of (name_of o) (o ∷ os) ≡ ok o
unfolding shelved
shelved-newest name_of o os = ground (
  arith,
  eq_iff (name_of o).namespace (name_of o).namespace,
  eq_iff (name_of o).name (name_of o).name,
)

shelved-name :
    {Obj : Type 0} (name_of : Obj → NamespacedName) (n : NamespacedName) (o : Obj) (os : List Obj)
    → shelved name_of n os ≡ ok o
    → name_of o ≡ n
unfolding shelved
shelved-name name_of n o [] e = cc
shelved-name name_of n o (x ∷ os) e = ground (
  arith,
  e,
  shelved-name name_of n o os,
  eq_iff (name_of x).namespace n.namespace,
  eq_iff (name_of x).name n.name,
)

module _ {Obj V : Type 0} (fill : Obj → Obj) (name_of : Obj → NamespacedName) (content : Obj → V)
    (same_name : (o : Obj) → name_of (fill o) ≡ name_of o)
    (same_content : (o : Obj) → content (fill o) ≡ content o) where
  newest_stored :
      (o stored : Obj) (s s' : List Obj)
      → ◌≡◌ {A = Result Obj × List Obj} (ok (fill o), fill o ∷ s) (ok stored, s')
      → (shelved name_of (name_of o) s' ≡ ok stored) × (content stored ≡ content o)
  newest_stored o stored s s' e =
      let same : stored ≡ fill o = cc e in
      (
        ap (λ n. shelved name_of n s') (sym (same_name o))
            ∙ ap (λ p. shelved name_of (name_of (fill o)) p.1) (sym e)
            ∙ shelved-newest name_of (fill o) s
            ∙ ap (λ p. p.0) e,
        ap content same ∙ same_content o,
      )

  pub filling_shelf-IsStore : IsStore (filling_shelf fill name_of) name_of content
  filling_shelf-IsStore = record {
    create_get = newest_stored;
    update_get = newest_stored;
    get_name = shelved-name name_of;
  }

pub shelf-IsStore :
    {Obj V : Type 0} (name_of : Obj → NamespacedName) (content : Obj → V)
    → IsStore (shelf name_of) name_of content
shelf-IsStore name_of content =
    filling_shelf-IsStore (λ o. o) name_of content (λ o. refl) (λ o. refl)
