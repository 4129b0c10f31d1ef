-- ===== src/HttpSnap/Tls/Pins.antt =====
-- Which connections the dialer with pins accepts.
use mathlib.Core.Path.{subst}
use fabric_snaps.Common.{
  String, ◌≡◌, sym, ap, ◌↔◌, true, some, List, [], ◌∷◌, contains, arith, Option-cases, inl, inr,
}
use fabric_snaps.HttpSnap.Config.{HttpConfig, timeout_or_default, dialer_timeout, dialer_keep_alive}
use fabric_snaps.HttpSnap.Outcome.{returned}
use fabric_snaps.HttpSnap.Platform.{Certificate, TlsConfig, Conn, Platform}
use fabric_snaps.HttpSnap.Tls.{check_pin, verify_pin_dialer, generate_pin}

module _ {Pool Keys : Type 0} (p : Platform Pool Keys) where
  -- The first chain begins with a certificate whose pin is among the pins.
  abbrev pub Pinned : List String → List (List Certificate) → Type 0
  Pinned pins [] = ⊥
  Pinned pins ([] ∷ chains) = ⊥
  Pinned pins ((leaf_cert ∷ certs) ∷ chains) = contains pins (generate_pin p leaf_cert) ≡ true

  check_pin_iff :
      (pins : List String) (c conn : Conn) (chains : List (List Certificate))
      → (check_pin p pins c chains ≡ returned conn) ↔ ((c ≡ conn) × Pinned pins chains)
  unfolding check_pin
  check_pin_iff pins c conn [] = ground (arith)
  check_pin_iff pins c conn ([] ∷ chains) = ground (arith)
  check_pin_iff pins c conn ((leaf_cert ∷ certs) ∷ chains) = ground (arith)

  -- The connection of a handshake with the dialer's timeouts.
  abbrev pub Dialed : TlsConfig → HttpConfig → String → String → Conn → Type 0
  Dialed tls_config config network addr conn =
      p.dial_with_dialer (timeout_or_default config dialer_timeout)
        (timeout_or_default config dialer_keep_alive) network addr tls_config
      ≡ some conn

  -- The dialer returns a connection if and only if the handshake gave it and the first verified chain
  -- begins with a certificate whose public key has one of the pins.
  pub verify_pin_dialer_iff :
      (tls_config : TlsConfig) (pins : List String) (config : HttpConfig) (network addr : String)
      (conn : Conn)
      → (verify_pin_dialer p tls_config pins config network addr ≡ returned conn)
        ↔ (Dialed tls_config config network addr conn × Pinned pins conn.verified_chains)
  unfolding verify_pin_dialer
  verify_pin_dialer_iff tls_config pins config network addr conn =
      elim (Option-cases (
        p.dial_with_dialer (timeout_or_default config dialer_timeout)
          (timeout_or_default config dialer_keep_alive) network addr tls_config)) [
            | inl e ↦ rw (verify_pin_dialer, e) (ground (arith))
            | inr (c, e) ↦ rw (verify_pin_dialer, e) (opened c)
          ]
    where
      opened :
          (c : Conn)
          → (check_pin p pins c c.verified_chains ≡ returned conn)
            ↔ ((some c ≡ some conn) × Pinned pins conn.verified_chains)
      opened c = (
        λ h.
            let (same, pinned) = (check_pin_iff pins c conn c.verified_chains).0 h in
            (ap some same, subst (λ x. Pinned pins x.verified_chains) same pinned),
        λ (same, pinned).
            let same' : c ≡ conn = ground (arith) in
            (check_pin_iff pins c conn c.verified_chains).1
              (same', subst (λ x. Pinned pins x.verified_chains) (sym same') pinned),
      )
