-- ===== src/Snap/Keys.antt =====
-- The algorithms and key types that configurationsnap/cmd/configurationscc/configurationscc.go knows.
use fabric_snaps.Common.{String, ◌==◌, Bool, if◌then◌else◌}
use fabric_snaps.Errors.{Result, ok, err, general_error}

-- `x509.PublicKeyAlgorithm`
pub data PublicKeyAlgorithm : Type 0 where
  rsa dsa ecdsa : PublicKeyAlgorithm

-- `getPublicKeyAlg`
unfoldable pub get_public_key_alg : String → Result PublicKeyAlgorithm
get_public_key_alg algorithm =
    if algorithm == "RSA"
    then ok rsa
    else if algorithm == "DSA"
    then ok rsa
    else if algorithm == "ECDSA"
    then ok rsa
    else err general_error

-- The options of a key's generation, each with its `Temporary` flag.
pub data KeyGenOpts : Type 0 where
  ecdsa_opts ecdsa_p256_opts ecdsa_p384_opts rsa_opts rsa1024_opts rsa2048_opts rsa3072_opts
        rsa4096_opts :
      Bool → KeyGenOpts

-- `getKeyOpts`
unfoldable pub get_key_opts : String → Bool → Result KeyGenOpts
get_key_opts key_type ephemeral =
    if key_type == "ECDSA"
    then ok (ecdsa_opts ephemeral)
    else if key_type == "ECDSAP256"
    then ok (ecdsa_p256_opts ephemeral)
    else if key_type == "ECDSAP384"
    then ok (ecdsa_p384_opts ephemeral)
    else if key_type == "RSA"
    then ok (rsa_opts ephemeral)
    else if key_type == "RSA1024"
    then ok (rsa1024_opts ephemeral)
    else if key_type == "RSA2048"
    then ok (rsa2048_opts ephemeral)
    else if key_type == "RSA3072"
    then ok (rsa3072_opts ephemeral)
    else if key_type == "RSA4096"
    then ok (rsa4096_opts ephemeral)
    else err general_error
