-- ===== src/Handler/Ignored.antt =====
-- Which writes make a commit necessary.
use mathlib.Core.Path.{subst}
use fabric_snaps.Common.{
  String, eq_iff, ◌≡◌, ◌≢◌, ◌↔◌, refl, true, Option, none, some, List, [], ◌∷◌, is_empty_iff,
  contains, arith, ◌⊎◌, inl, inr, All,
}
use fabric_snaps.Handler.WriteSet.{
  Namespace, CollHashedRwSet, NsRwSet, ignore_cc, ignore_collection, has_writes,
  has_collection_writes, has_write_set,
}

-- Some element has the property.
abbrev pub Any {ℓ} : {A : Type ℓ} → (A → Type 0) → List A → Type 0
Any P [] = ⊥
Any P (x ∷ xs) = P x ⊎ Any P xs

-- The configuration names a chaincode with no collections.
abbrev pub IgnoresChaincode : List Namespace → String → Type 0
IgnoresChaincode namespaces cc_name =
    Any (λ ns. (ns.name ≡ cc_name) × (ns.collections ≡ [])) namespaces

-- The configuration names a collection of a chaincode.
abbrev pub IgnoresCollection : List Namespace → String → String → Type 0
IgnoresCollection namespaces cc_name coll_name =
    Any (λ ns. (ns.name ≡ cc_name) × Any (λ c. c ≡ coll_name) ns.collections) namespaces

-- The configuration names each chaincode once.
abbrev pub DistinctNames : List Namespace → Type 0
DistinctNames [] = Unit
DistinctNames (ns ∷ namespaces) =
    All (λ other. other.name ≢ ns.name) namespaces × DistinctNames namespaces

abbrev pub Writes : Option (List String) → Type 0
Writes o = (w : String) × (ws : List String) × (o ≡ some (w ∷ ws))

-- A write to a chaincode counts unless the configuration ignores the whole chaincode; a write to the
-- private data of a collection counts unless it ignores the collection too.
abbrev pub Counts : List Namespace → NsRwSet → Type 0
Counts namespaces ns =
    ¬ (IgnoresChaincode namespaces ns.name_space)
    × (Writes ns.writes
        ⊎ Any
            (λ coll.
              ¬ (IgnoresCollection namespaces ns.name_space coll.collection_name)
              × Writes coll.hashed_writes)
            ns.coll_hashed_rw_sets)

contains_iff : (xs : List String) (s : String) → (contains xs s ≡ true) ↔ Any (λ c. c ≡ s) xs
unfolding contains
contains_iff [] s = ground (arith)
contains_iff (x ∷ xs) s = ground (arith, eq_iff x s, contains_iff xs s)

ignore_collection_iff :
    (namespaces : List Namespace) (cc_name coll_name : String)
    → (ignore_collection namespaces cc_name coll_name ≡ true)
      ↔ IgnoresCollection namespaces cc_name coll_name
unfolding ignore_collection
ignore_collection_iff [] cc_name coll_name = ground (arith)
ignore_collection_iff (ns ∷ namespaces) cc_name coll_name = ground (
  arith,
  eq_iff ns.name cc_name,
  contains_iff ns.collections coll_name,
  ignore_collection_iff namespaces cc_name coll_name,
)

not_named :
    (namespaces : List Namespace) (name : String)
    → All (λ other. other.name ≢ name) namespaces
    → ¬ (IgnoresChaincode namespaces name)
not_named [] name h i = i
not_named (ns ∷ namespaces) name h (inl i) = h.0 i.0
not_named (ns ∷ namespaces) name h (inr i) = not_named namespaces name h.1 i

has_writes_iff : (o : Option (List String)) → (has_writes o ≡ true) ↔ Writes o
has_writes_iff none = ((λ h. cc), λ h. let (w, ws, e) = h in cc)
has_writes_iff (some []) = ((λ h. cc), λ h. let (w, ws, e) = h in cc)
has_writes_iff (some (w ∷ ws)) = ((λ h. (w, ws, refl)), λ h. refl)

ignore_cc_iff :
    (namespaces : List Namespace) (cc_name : String)
    → DistinctNames namespaces
    → (ignore_cc namespaces cc_name ≡ true) ↔ IgnoresChaincode namespaces cc_name
unfolding ignore_cc
ignore_cc_iff [] cc_name d = ground (arith)
ignore_cc_iff (ns ∷ namespaces) cc_name d =
    let absent : ns.name ≡ cc_name → ¬ (IgnoresChaincode namespaces cc_name) =
      λ p. subst (λ u. ¬ (IgnoresChaincode namespaces u)) p (not_named namespaces ns.name d.0) in
    ground (
      arith,
      eq_iff ns.name cc_name,
      is_empty_iff ns.collections,
      ignore_cc_iff namespaces cc_name d.1,
      absent,
    )

has_collection_writes_iff :
    (namespaces : List Namespace) (cc_name : String) (colls : List CollHashedRwSet)
    → (has_collection_writes namespaces cc_name colls ≡ true)
      ↔ Any
          (λ coll.
            ¬ (IgnoresCollection namespaces cc_name coll.collection_name)
            × Writes coll.hashed_writes)
          colls
unfolding has_collection_writes
has_collection_writes_iff namespaces cc_name [] = ground (arith)
has_collection_writes_iff namespaces cc_name (coll ∷ colls) = ground (
  arith,
  ignore_collection_iff namespaces cc_name coll.collection_name,
  has_writes_iff coll.hashed_writes,
  has_collection_writes_iff namespaces cc_name colls,
)

-- Where the configuration names each chaincode once, a transaction has a write set if and only if one of
-- its writes counts: a public write to a chaincode that the configuration does not name without
-- collections, or a write to the private data of a collection of such a chaincode that it does not name
-- with the chaincode.
pub has_write_set_iff :
    (namespaces : List Namespace) (rw_sets : List NsRwSet)
    → DistinctNames namespaces
    → (has_write_set namespaces rw_sets ≡ true) ↔ Any (Counts namespaces) rw_sets
unfolding has_write_set
has_write_set_iff namespaces [] d = ground (arith)
has_write_set_iff namespaces (ns ∷ rw_sets) d = ground (
  arith,
  ignore_cc_iff namespaces ns.name_space d,
  has_writes_iff ns.writes,
  has_collection_writes_iff namespaces ns.name_space ns.coll_hashed_rw_sets,
  has_write_set_iff namespaces rw_sets d,
)
