-- ===== src/Handler/WriteSet.antt =====
-- Which writes of a transaction count: `hasWriteSet` of
-- transactionsnap/pkg/client/handler/checkforcommit.go.
use fabric_snaps.Common.{
  String, ◌==◌, Bool, true, false, not, ◌&&◌, Option, none, some, List, [], ◌∷◌, is_empty, contains,
  if◌then◌else◌,
}

-- `api.Namespace`
pub record Namespace : Type 0 where
  pub name : String
  pub collections : List String

-- `rwsetutil.CollHashedRwSet`, with its hashed writes unless they are nil
pub record CollHashedRwSet : Type 0 where
  pub collection_name : String
  pub hashed_writes : Option (List String)

-- `rwsetutil.NsRwSet`, with its writes unless they are nil
pub record NsRwSet : Type 0 where
  pub name_space : String
  pub writes : Option (List String)
  pub coll_hashed_rw_sets : List CollHashedRwSet

unfoldable pub ignore_cc : List Namespace → String → Bool
ignore_cc [] cc_name = false
ignore_cc (ns ∷ namespaces) cc_name =
    if ns.name == cc_name then is_empty ns.collections else ignore_cc namespaces cc_name

unfoldable pub ignore_collection : List Namespace → String → String → Bool
ignore_collection [] cc_name coll_name = false
ignore_collection (ns ∷ namespaces) cc_name coll_name =
    if ns.name == cc_name && contains ns.collections coll_name
    then true
    else ignore_collection namespaces cc_name coll_name

-- `rwSet != nil && len(writes) > 0`
abbrev pub has_writes : Option (List String) → Bool
has_writes none = false
has_writes (some writes) = not (is_empty writes)

-- The inner loop of `hasWriteSet`.
unfoldable pub has_collection_writes : List Namespace → String → List CollHashedRwSet → Bool
has_collection_writes namespaces cc_name [] = false
has_collection_writes namespaces cc_name (coll ∷ colls) =
    let rest = has_collection_writes namespaces cc_name colls in
    if ignore_collection namespaces cc_name coll.collection_name
    then rest
    else if has_writes coll.hashed_writes
    then true
    else rest

unfoldable pub has_write_set : List Namespace → List NsRwSet → Bool
has_write_set namespaces [] = false
has_write_set namespaces (ns ∷ rw_sets) =
    let rest = has_write_set namespaces rw_sets in
    if ignore_cc namespaces ns.name_space
    then rest
    else if has_writes ns.writes
    then true
    else if has_collection_writes namespaces ns.name_space ns.coll_hashed_rw_sets
    then true
    else rest
