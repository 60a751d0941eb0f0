-- ===== src/Capability/Snapshot/Build.antt =====
-- What the builder makes of the bindings of a catalog: the routes of every name, and no conflict.
use luna_agent.Prelude.{
  ℕ, ℤ, pos, negsuc, leb_ℤ, ◌≤◌, String, ◌≡◌, refl, subst, sym, ap, ◌∙◌, ◌⊎◌, inl, inr, Bool, true,
  not, ◌&&◌, ◌||◌, if_elim, List, [], ◌∷◌, ◌++◌, arith, ◌==◌, ==_iff, String_eq, if◌then◌else◌,
  Bool-cases, map, keep, fold, length,
}
use luna_agent.Prelude.Dict
use luna_agent.Prelude.Dict.{get-put}
use luna_agent.Prelude.Sort.{sorted, insert_sorted}
use luna_agent.Capability.Failure.{Result, ok, err, ◌>>=◌}
use luna_agent.Capability.Binding.{
  CapabilityBinding, CapabilityKind, CapabilityKind_eq, CapabilityRoute, from_binding,
}
use luna_agent.Capability.Catalog
use luna_agent.Capability.Catalog.{CandidateCatalog}
use luna_agent.Capability.Snapshot.{
  Routes, RoutesByName, CapabilitySnapshot, names_of, routes_of, select, group_one, le_hook,
  priority, order, is_hook, freeze_routes, freeze_names, freeze, build,
}

abbrev pub serves : CapabilityKind → String → CapabilityBinding → Bool
serves kind name b = (b.kind == kind) && (b.public_name == name)

append-nil {ℓ} : {A : Type ℓ} (xs : List A) → xs ++ [] ≡ xs
append-nil [] = refl
append-nil (x ∷ xs) = ground (arith, append-nil xs)

append_assoc {ℓ} : {A : Type ℓ} (xs ys zs : List A) → (xs ++ ys) ++ zs ≡ xs ++ (ys ++ zs)
append_assoc [] ys zs = refl
append_assoc (x ∷ xs) ys zs = ground (arith, append_assoc xs ys zs)

select-group_one :
    (g : Routes) (b : CapabilityBinding) (kind : CapabilityKind) (name : String)
    → select (group_one g b) kind name ≡ (
        if serves kind name b
        then select g kind name ++ from_binding b ∷ []
        else select g kind name)
unfolding group_one
select-group_one g b kind name =
    let by_name = names_of (Dict.get g b.kind) in
    let routes = routes_of (Dict.get by_name b.public_name) ++ from_binding b ∷ [] in
    ground (
      arith,
      get-put g b.kind (Dict.put by_name b.public_name routes) kind,
      get-put by_name b.public_name routes name,
      ==_iff b.kind kind,
      ==_iff b.public_name name,
    )

select-fold :
    (bs : List CapabilityBinding) (g : Routes) (kind : CapabilityKind) (name : String)
    → select (fold group_one g bs) kind name
      ≡ select g kind name ++ map from_binding (keep (serves kind name) bs)
select-fold [] g kind name = ground (arith, append-nil (select g kind name))
select-fold (b ∷ bs) g kind name = ground (
  arith,
  select-fold bs (group_one g b) kind name,
  select-group_one g b kind name,
  append_assoc (select g kind name) (from_binding b ∷ [])
      (map from_binding (keep (serves kind name) bs)),
)

-- The routes of a name as `freeze` puts them in order.
abbrev pub in_order : CapabilityKind → List CapabilityRoute → List CapabilityRoute
in_order kind routes = if is_hook kind then sorted le_hook routes else routes

-- A list of routes that `freeze` lets through.
abbrev pub IsFrozen : CapabilityKind → List CapabilityRoute → List CapabilityRoute → Type 0
IsFrozen kind routes frozen =
    (frozen ≡ in_order kind routes) × ((is_hook kind ≡ true) ⊎ (length routes ≤ 1))

freeze_routes-IsFrozen :
    (kind : CapabilityKind) (routes frozen : List CapabilityRoute)
    → freeze_routes kind routes ≡ ok frozen
    → IsFrozen kind routes frozen
unfolding freeze_routes
freeze_routes-IsFrozen kind routes frozen e = ground arith

ok_injective : {A : Type 0} {a b : A} → ok a ≡ ok b → a ≡ b
ok_injective e = cc

empty-IsFrozen :
    (kind : CapabilityKind) (name : String)
    → IsFrozen kind (select [] kind name) (select [] kind name)
unfolding Dict.get
empty-IsFrozen kind name = elim (Bool-cases (is_hook kind)) [
  | inl h ↦ (rw h refl, inl h)
  | inr h ↦ (rw h refl, inr (omega arith))
]

-- `do`, taken apart.
then_ok :
    {A B : Type 0} (r : Result A) (f : A → Result B) (b : B)
    → (r >>= f) ≡ ok b
    → (a : A) × (r ≡ ok a) × (f a ≡ ok b)
then_ok (ok a) f b e = (a, refl, e)
then_ok (err x) f b e = cc

freeze_names-get :
    (kind : CapabilityKind) (by_name frozen : RoutesByName) (name : String)
    → freeze_names kind by_name ≡ ok frozen
    → IsFrozen kind (routes_of (Dict.get by_name name)) (routes_of (Dict.get frozen name))
unfolding freeze_names Dict.get
freeze_names-get kind [] frozen name e = ground arith
freeze_names-get kind ((n, routes) ∷ rest) frozen name e =
    let (now, is_now, e') = then_ok (freeze_routes kind routes) _ frozen e in
    let (others, are_others, e'') = then_ok (freeze_names kind rest) _ frozen e' in
    ground (
      arith,
      freeze_routes-IsFrozen kind routes now is_now,
      freeze_names-get kind rest others name are_others,
      e'',
    )

-- The first entry of the grouped routes, by whether it is the kind's.
freeze-cons :
    (k kind : CapabilityKind) (by_name now : RoutesByName) (rest others : Routes) (name : String)
    → IsFrozen k (routes_of (Dict.get by_name name)) (routes_of (Dict.get now name))
    → IsFrozen kind (select rest kind name) (select others kind name)
    → IsFrozen kind (select ((k, by_name) ∷ rest) kind name) (select ((k, now) ∷ others) kind name)
unfolding Dict.get
freeze-cons k kind by_name now rest others name here there = elim (Bool-cases (k == kind)) [
  | inl same ↦ rw same (
      subst (λ x. IsFrozen x (routes_of (Dict.get by_name name)) (routes_of (Dict.get now name)))
        ((==_iff k kind).0 same) here)
  | inr other ↦ rw other there
]

freeze-get :
    (g frozen : Routes) (kind : CapabilityKind) (name : String)
    → freeze g ≡ ok frozen
    → IsFrozen kind (select g kind name) (select frozen kind name)
unfolding freeze
freeze-get [] frozen kind name e =
    subst (λ x. IsFrozen kind (select [] kind name) (select x kind name)) (ok_injective e)
      (empty-IsFrozen kind name)
freeze-get ((k, by_name) ∷ rest) frozen kind name e =
    let (now, is_now, e') = then_ok (freeze_names k by_name) _ frozen e in
    let (others, are_others, e'') = then_ok (freeze rest) _ frozen e' in
    subst (λ x. IsFrozen kind (select ((k, by_name) ∷ rest) kind name) (select x kind name))
      (ok_injective e'')
      (freeze-cons k kind by_name now rest others name (freeze_names-get k by_name now name is_now)
        (freeze-get rest others kind name are_others))

leb_ℤ_total : (a b : ℤ) → (leb_ℤ a b || leb_ℤ b a) ≡ true
leb_ℤ_total (pos a) (pos b) = ground arith
leb_ℤ_total (pos a) (negsuc b) = refl
leb_ℤ_total (negsuc a) (pos b) = refl
leb_ℤ_total (negsuc a) (negsuc b) = ground arith

-- The first route has the smaller priority, or the same one and no larger order.
abbrev pub not_after : CapabilityRoute → CapabilityRoute → Bool
not_after a b =
    leb_ℤ (priority a) (priority b)
    && (not (leb_ℤ (priority b) (priority a)) || leb_ℤ (order a) (order b))

abbrev pub Heads : CapabilityRoute → List CapabilityRoute → Type 0
Heads a [] = Unit
Heads a (b ∷ routes) = not_after a b ≡ true

abbrev pub ByPriority : List CapabilityRoute → Type 0
ByPriority [] = Unit
ByPriority (a ∷ routes) = Heads a routes × ByPriority routes

le_hook-not_after :
    (a b : CapabilityRoute) → (if le_hook a b then not_after a b else not_after b a) ≡ true
unfolding le_hook
le_hook-not_after a b =
    ground (arith, leb_ℤ_total (priority a) (priority b), leb_ℤ_total (order a) (order b))

insert-Heads :
    (b a : CapabilityRoute) (routes : List CapabilityRoute)
    → not_after b a ≡ true
    → Heads b routes
    → Heads b (insert_sorted le_hook a routes)
insert-Heads b a [] h hs = h
insert-Heads b a (x ∷ routes) h hs =
    if_elim (Heads b) (le_hook a x) (a ∷ x ∷ routes) (x ∷ insert_sorted le_hook a routes) (λ e. h)
      (λ e. hs)

insert-ByPriority :
    (a : CapabilityRoute) (routes : List CapabilityRoute)
    → ByPriority routes
    → ByPriority (insert_sorted le_hook a routes)
insert-ByPriority a [] p = (tt, tt)
insert-ByPriority a (x ∷ routes) (heads, p) =
    if_elim ByPriority (le_hook a x) (a ∷ x ∷ routes) (x ∷ insert_sorted le_hook a routes)
      (λ e. (ground (arith, e, le_hook-not_after a x), (heads, p)))
      (λ e. (
        insert-Heads x a routes (ground (arith, e, le_hook-not_after a x)) heads,
        insert-ByPriority a routes p,
      ))

sorted-ByPriority : (routes : List CapabilityRoute) → ByPriority (sorted le_hook routes)
sorted-ByPriority [] = tt
sorted-ByPriority (a ∷ routes) =
    insert-ByPriority a (sorted le_hook routes) (sorted-ByPriority routes)

-- Hooks are in order, and a name of any other kind is alone.
abbrev pub IsPlaced : CapabilityKind → List CapabilityRoute → List CapabilityRoute → Type 0
IsPlaced kind routes frozen =
    (frozen ≡ in_order kind routes)
    × (((is_hook kind ≡ true) × ByPriority frozen) ⊎ (length routes ≤ 1))

IsFrozen-IsPlaced :
    (kind : CapabilityKind) (routes frozen : List CapabilityRoute)
    → IsFrozen kind routes frozen
    → IsPlaced kind routes frozen
IsFrozen-IsPlaced kind routes frozen (e, inr alone) = (e, inr alone)
IsFrozen-IsPlaced kind routes frozen (e, inl h) =
    let hooks : in_order kind routes ≡ sorted le_hook routes = ground (arith, h) in
    (e, inl (h, subst ByPriority (sym (e ∙ hooks)) (sorted-ByPriority routes)))

-- In a snapshot that was built, a name of a kind has the routes of exactly the bindings of that
-- kind and name: at most one, or those of a hook, sorted by priority, order and id, so that from
-- one to the next the priority never goes down, nor the order where the priority is the same. The
-- snapshot has the revision asked for and the ids of all the bindings.
pub build-select :
    (catalog : CandidateCatalog) (revision : ℕ) (snapshot : CapabilitySnapshot)
    (kind : CapabilityKind) (name : String)
    → build catalog revision ≡ ok snapshot
    → IsPlaced kind
        (map from_binding (keep (serves kind name) (Catalog.bindings catalog)))
        (select snapshot.routes kind name)
      × (snapshot.revision ≡ revision)
      × (snapshot.binding_ids ≡ Catalog.binding_ids catalog)
unfolding build Dict.get
build-select catalog revision snapshot kind name e =
    let (frozen, is_frozen, e') =
      then_ok (freeze (fold group_one [] (Catalog.bindings catalog))) _ snapshot e in
    let grouped = select-fold (Catalog.bindings catalog) [] kind name in
    let got =
      freeze-get (fold group_one [] (Catalog.bindings catalog)) frozen kind name is_frozen in
    let e'' = ok_injective e' in
    (
      subst
          (λ x.
            IsPlaced kind (map from_binding (keep (serves kind name) (Catalog.bindings catalog)))
              (select x kind name))
          (ap (λ s. s.routes) e'')
          (IsFrozen-IsPlaced kind _ _
            (subst (λ x. IsFrozen kind x (select frozen kind name)) grouped got)),
      sym (ap (λ s. s.revision) e''),
      sym (ap (λ s. s.binding_ids) e''),
    )
