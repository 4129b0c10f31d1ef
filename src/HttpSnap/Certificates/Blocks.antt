-- ===== src/HttpSnap/Certificates/Blocks.antt =====
-- The loops over PEM blocks end before their fuel does.
use Prim.Native.String.{len}
use fabric_snaps.Common.{ℕ, zero, suc, ◌<◌, String, ◌≡◌, refl, some, arith, Option-cases, inl, inr}
use fabric_snaps.HttpSnap.Platform.{PemBlock, Platform}
use fabric_snaps.HttpSnap.Certificates.{certificate_blocks, decode_blocks}

-- What follows a block is shorter than the text.
abbrev pub IsPem : {Pool Keys : Type 0} → Platform Pool Keys → Type 0
IsPem p =
    (s : String) (block : PemBlock) (rest : String)
    → p.pem_decode s ≡ some (block, rest)
    → len rest < len s

module _ {Pool Keys : Type 0} (p : Platform Pool Keys) (pem : IsPem p) where
  certificate_blocks_fuel :
      (m n : ℕ) (s : String)
      → len s < m
      → len s < n
      → certificate_blocks p m s ≡ certificate_blocks p n s
  unfolding certificate_blocks
  certificate_blocks_fuel zero n s hm hn = ground (arith)
  certificate_blocks_fuel (suc m) zero s hm hn = ground (arith)
  certificate_blocks_fuel (suc m) (suc n) s hm hn = elim (Option-cases (p.pem_decode s)) [
    | inl e ↦ rw (certificate_blocks, e) refl
    | inr ((block, rest), e) ↦
        let shorter = pem s block rest e in
        rw (certificate_blocks, e, certificate_blocks_fuel m n rest (omega arith) (omega arith))
          refl
  ]

  decode_blocks_fuel :
      (m n : ℕ) (s : String) → len s < m → len s < n → decode_blocks p m s ≡ decode_blocks p n s
  unfolding decode_blocks
  decode_blocks_fuel zero n s hm hn = ground (arith)
  decode_blocks_fuel (suc m) zero s hm hn = ground (arith)
  decode_blocks_fuel (suc m) (suc n) s hm hn = elim (Option-cases (p.pem_decode s)) [
    | inl e ↦ rw e refl
    | inr ((block, rest), e) ↦
        let shorter = pem s block rest e in
        rw (e, decode_blocks_fuel m n rest (omega arith) (omega arith)) refl
  ]

  -- The loops of x509KeyPair and decodeCerts over the blocks of a text give the same with every fuel
  -- above the text's length: they end before the fuel does.
  pub blocks_fuel :
      (n : ℕ) (s : String)
      → len s < n
      → (certificate_blocks p n s ≡ certificate_blocks p (suc (len s)) s)
        × (decode_blocks p n s ≡ decode_blocks p (suc (len s)) s)
  blocks_fuel n s h = (
    certificate_blocks_fuel n (suc (len s)) s h (omega arith),
    decode_blocks_fuel n (suc (len s)) s h (omega arith),
  )
