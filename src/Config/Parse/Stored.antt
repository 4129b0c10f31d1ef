-- ===== src/Config/Parse/Stored.antt =====
-- What the map of a parsed message holds.
use fabric_snaps.Common.{
  String, ◌≡◌, ◌≢◌, refl, sym, ◌∙◌, Option, none, some, List, [], ◌∷◌, if◌then◌else◌, lookup,
  insert, lookup-insert, arith, All,
}
use fabric_snaps.Errors.{ok, or_err, for_each, >>=-eq-ok, unmarshal_error}
use fabric_snaps.Config.Key.{ConfigKey}
use fabric_snaps.Config.Key.Equality.{key_eq}
use fabric_snaps.Config.Key.Validity.{IsValid, validate_config_key_iff}
use fabric_snaps.Config.Message.{ConfigMessage, validate_message}
use fabric_snaps.Config.Parse.{Bytes, Json, ConfigMap, parse_config_message}
use fabric_snaps.Config.Parse.Entries.{Entry, entries, store_entry, store, parse_config_message-eq}

-- The value of the last entry for the key.
abbrev pub last_value : ConfigKey → List Entry → Option Bytes
last_value k [] = none
last_value k ((j, v) ∷ es) = elim (last_value k es) [
  | some b ↦ some b
  | none ↦ if key_eq.beq j k then v else none
]

abbrev or_else : Option Bytes → Option Bytes → Option Bytes
or_else (some b) o = some b
or_else none o = o

or_else-none : (o : Option Bytes) → or_else o none ≡ o
or_else-none none = refl
or_else-none (some b) = refl

ok_inj {ℓ} : {A : Type ℓ} {a b : A} → ok a ≡ ok b → a ≡ b
ok_inj h = cc

store_entry-ok :
    (e : Entry) (m m' : ConfigMap)
    → store_entry e m ≡ ok m'
    → IsValid e.0 × ((b : Bytes) × (e.1 ≡ some b) × (m' ≡ insert e.0 b m))
unfolding store_entry
store_entry-ok (k, none) m m' h = absurd (ground arith)
store_entry-ok (k, some b) m m' h =
    (ground (arith, validate_config_key_iff k), (b, refl, ground arith))

-- The map built by a loop over entries: for each key the last entry's value, or what was there.
lookup-store :
    (es : List Entry) (k : ConfigKey) (m m' : ConfigMap)
    → store es m ≡ ok m'
    → lookup k m' ≡ or_else (last_value k es) (lookup k m)
unfolding for_each
lookup-store [] k m m' h = cc (ok_inj h)
lookup-store ((j, v) ∷ es) k m m' h =
    let (m₁, p, q) = >>=-eq-ok (store_entry (j, v) m) (store es) h in
    let (_, (b, e, i)) = store_entry-ok (j, v) m m₁ p in
    ground (arith, lookup-store es k m₁ m' q, lookup-insert j k b m, e, i)

store-keys-IsValid :
    (es : List Entry) (m m' : ConfigMap) → store es m ≡ ok m' → All (λ e. IsValid e.0) es
unfolding for_each
store-keys-IsValid [] m m' h = tt
store-keys-IsValid (e ∷ es) m m' h =
    let (m₁, p, q) = >>=-eq-ok (store_entry e m) (store es) h in
    ((store_entry-ok e m m₁ p).0, store-keys-IsValid es m₁ m' q)

-- If a message parses, it unmarshals to a valid message, every entry of it has a valid key, and the
-- map holds for each key the value of the last entry for it, and nothing for other keys.
pub parse_config_message-lookup :
    (json : Json) (d : Bytes) (tx : String) (m : ConfigMap)
    → parse_config_message json d tx ≡ ok m
    → (cm : ConfigMessage) × (json.unmarshal_message d ≡ some cm)
      × (validate_message cm ≡ ok tt)
      × All (λ e. IsValid e.0) (entries json tx cm)
      × ((k : ConfigKey) → lookup k m ≡ last_value k (entries json tx cm))
unfolding lookup
parse_config_message-lookup json d tx m h =
    let p = sym (parse_config_message-eq json d tx) ∙ h in
    let (cm, u, q) = >>=-eq-ok (or_err (json.unmarshal_message d) unmarshal_error) _ p in
    let (_, v, r) = >>=-eq-ok (validate_message cm) _ q in
    (
      cm,
      ground arith,
      ground arith,
      store-keys-IsValid (entries json tx cm) [] m r,
      λ k. lookup-store (entries json tx cm) k [] m r ∙ or_else-none _,
    )

-- An entry can be stored: its key is valid and its value marshalled.
abbrev pub Storable : Entry → Type 0
Storable (k, v) = IsValid k × (v ≢ none)

store_entry_total :
    (e : Entry) (m : ConfigMap) → Storable e → (m' : ConfigMap) × (store_entry e m ≡ ok m')
unfolding store_entry
store_entry_total (k, none) m h = absurd (h.1 refl)
store_entry_total (k, some b) m h = (insert k b m, ground (arith, validate_config_key_iff k))

store_total :
    (es : List Entry) (m : ConfigMap) → All Storable es → (m' : ConfigMap) × (store es m ≡ ok m')
unfolding for_each
store_total [] m h = (m, refl)
store_total (e ∷ es) m h =
    let (m₁, p) = store_entry_total e m h.0 in let (m', q) = store_total es m₁ h.1 in (m', rw p q)

-- A message that unmarshals to a valid message, all of whose entries have valid keys and marshal, parses.
pub parse_config_message_total :
    (json : Json) (d : Bytes) (tx : String) (cm : ConfigMessage)
    → json.unmarshal_message d ≡ some cm
    → validate_message cm ≡ ok tt
    → All Storable (entries json tx cm)
    → (m : ConfigMap) × (parse_config_message json d tx ≡ ok m)
parse_config_message_total json d tx cm u v h =
    let (m, p) = store_total (entries json tx cm) [] h in
    (m, parse_config_message-eq json d tx ∙ rw (u, v) p)
