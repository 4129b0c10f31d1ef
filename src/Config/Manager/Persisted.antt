-- ===== src/Config/Manager/Persisted.antt =====
-- `Save` as a client sees it: each configuration of the message is in the ledger under its key.
use mathlib.Core.Path.{subst}
use fabric_snaps.Common.{
  String, ◌==◌, ◌≡◌, ◌≢◌, refl, ◌∙◌, true, false, Option, some, [], ◌∷◌, All-map, lookup, All,
  Distinct, eq_self, ≢→eq, Bool-cases, inl, inr,
}
use fabric_snaps.Errors.{ok, system_error}
use fabric_snaps.Exec.{call_or, >>=-ok, call_or-ok}
use fabric_snaps.Config.Key.{ConfigKey, string}
use fabric_snaps.Config.Key.Equality.{key_eq, key_beq_iff}
use fabric_snaps.Config.Key.RoundTrip.{LacksDivider, string_inj}
use fabric_snaps.Config.Parse.{Bytes, Json, ConfigMap, parse_config_message}
use fabric_snaps.Config.Stub.{Stub, IsLedger}
use fabric_snaps.Config.Manager.{config_cc_event_name, save_configs, save}
use fabric_snaps.Config.Manager.Saved.{written, save_configs-committed}

-- What Go says of `range`: every entry of the map once, in any order.
pub record IsRangeOf (m : ConfigMap) (es : ConfigMap) : Type 0 where
  pub once : Distinct es
  pub same : (k : ConfigKey) → lookup k es ≡ lookup k m

texts_differ :
    (k : ConfigKey) (es : ConfigMap)
    → LacksDivider k
    → All (λ e. LacksDivider e.0) es
    → All (λ e. e.0 ≢ k) es
    → All (λ e. string e.0 ≢ string k) es
texts_differ k [] hk hs d = tt
texts_differ k ((j, v) ∷ es) hk hs d =
    (λ p. d.0 (string_inj j k hs.0 hk p), texts_differ k es hk hs.1 d.1)

pub written_absent :
    (j : String) (es : ConfigMap) (o : Option Bytes)
    → All (λ e. string e.0 ≢ j) es
    → written j es o ≡ o
written_absent j [] o h = refl
written_absent j ((k, v) ∷ es) o h = rw (≢→eq (string k) j h.0) (written_absent j es o h.1)

written-lookup :
    (es : ConfigMap) (k : ConfigKey) (v : Bytes) (o : Option Bytes)
    → Distinct es
    → All (λ e. LacksDivider e.0) es
    → lookup k es ≡ some v
    → written (string k) es o ≡ some v
unfolding lookup
written-lookup [] k v o d h p = cc
written-lookup ((j, w) ∷ es) k v o d h p = elim (Bool-cases (key_eq.beq j k)) [
  | inl e ↦
      let same : j ≡ k = (key_beq_iff j k).0 e in
      let text : (string j == string k) ≡ true = rw same (eq_self (string k)) in
      let value : some w ≡ some v = rw e at p in
      rw text (
        written_absent (string k) es (some w)
          (subst (λ x. All (λ e'. string e'.0 ≢ string x) es) same (texts_differ j es h.0 h.1 d.0))
        ∙ value)
  | inr e ↦ written-lookup es k v _ d.1 h.1 (rw e at p)
]

All-lookup :
    (P : ConfigKey → Type 0) (k : ConfigKey) (v : Bytes) (es : ConfigMap)
    → All (λ e. P e.0) es
    → lookup k es ≡ some v
    → P k
unfolding lookup
All-lookup P k v [] h p = cc
All-lookup P k v ((j, w) ∷ es) h p = elim (Bool-cases (key_eq.beq j k)) [
  | inl e ↦ subst P ((key_beq_iff j k).0 e) h.0
  | inr e ↦ All-lookup P k v es h.1 (rw e at p)
]

module _ (stub : Stub) (L : IsLedger stub) (json : Json) (range_order : ConfigMap → ConfigMap)
    (d : Bytes) (s : stub.State) {m : ConfigMap}
    (parsed : parse_config_message json d (stub.get_tx_id s) ≡ ok m)
    (saved : (save stub json range_order d s).0 ≡ ok tt) where
  -- A key text that is not composite holds what the entries, in their order, have written to it.
  save-written :
      (j : String)
      → L.is_composite j ≡ false
      → L.committed (save stub json range_order d s).1 j
        ≡ written j (range_order m) (L.committed s j)
  unfolding save
  save-written j plain = elim (Bool-cases (d == "")) [
    | inl e ↦ absurd (cc (rw e at saved))
    | inr e ↦
        let (_, e₁, h₁, p₁) =
          >>=-ok (call_or system_error (stub.set_event config_cc_event_name))
            (λ _. save_configs stub (range_order m)) s (rw (e, parsed) at saved) in
        let (_, q) = call_or-ok system_error (stub.set_event config_cc_event_name) s e₁ in
        rw (
          e,
          parsed,
          p₁,
          save_configs-committed stub L (range_order m) _ j h₁ plain,
          q,
          L.committed-set_event config_cc_event_name j s,
        )
  ]

  -- If `Save` succeeds on a message that parses to the map `m`, whatever the order in which Go ranges
  -- over `m`, and no key of `m` holds the divider or has a composite key for its text, then after the
  -- commit the ledger has every value of `m` under the text of its key.
  pub save-committed :
      IsRangeOf m (range_order m)
      → All (λ e. LacksDivider e.0 × (L.is_composite (string e.0) ≡ false)) (range_order m)
      → (k : ConfigKey) (v : Bytes) → lookup k m ≡ some v
      → L.committed (save stub json range_order d s).1 (string k) ≡ some v
  save-committed r h k v p =
      let q = r.same k ∙ p in
      save-written (string k) (
        (All-lookup (λ k'. LacksDivider k' × (L.is_composite (string k') ≡ false)) k v
          (range_order m) h q).1)
      ∙ written-lookup (range_order m) k v _ r.once (All-map (λ e hh. hh.0) (range_order m) h) q

  -- If `Save` succeeds on a message that parses to the map `m`, then a key text that is not composite and
  -- not that of a key of `m`, in the order in which Go ranges over it, has after the commit what it had.
  pub save_keeps :
      (j : String)
      → L.is_composite j ≡ false
      → All (λ e. string e.0 ≢ j) (range_order m)
      → L.committed (save stub json range_order d s).1 j ≡ L.committed s j
  save_keeps j plain absent = save-written j plain ∙ written_absent j (range_order m) _ absent
