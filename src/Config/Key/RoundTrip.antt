-- ===== src/Config/Key/RoundTrip.antt =====
-- The text of a key and back: when the text determines the key, and when it does not.
use Prim.Native.String.{◌++◌}
use text.Mathlib.TextLemmas.{append_assoc}
use fabric_snaps.Common.{String, ◌≡◌, refl, ap, All}
use fabric_snaps.Common.Strings.{join, Lacks, split-join}
use fabric_snaps.Errors.{ok, ◌>>=◌}
use fabric_snaps.Config.Key.{ConfigKey, parts, string, config_key_to_string, string_to_config_key}
use fabric_snaps.Config.Key.Validity.{IsValid, config_key_to_string_of_IsValid}

-- No part of the key holds the divider "!".
abbrev pub LacksDivider : ConfigKey → Type 0
LacksDivider k = All (Lacks b'!') (parts k)

pub string_to_config_key-string :
    (k : ConfigKey) → LacksDivider k → string_to_config_key (string k) ≡ ok k
unfolding string_to_config_key string
string_to_config_key-string k h = rw (split-join b'!' _ _ _ refl h)

-- The text of a valid key whose parts lack the divider reads back as the key.
pub string_to_config_key-config_key_to_string :
    (k : ConfigKey)
    → IsValid k
    → LacksDivider k
    → (config_key_to_string k >>= string_to_config_key) ≡ ok k
string_to_config_key-config_key_to_string k v h =
    rw (config_key_to_string_of_IsValid k v) (string_to_config_key-string k h)

-- Keys without the divider that have one text are one key.
pub string_inj : (a b : ConfigKey) → LacksDivider a → LacksDivider b → string a ≡ string b → a ≡ b
string_inj a b ha hb p =
    cc (
      ap string_to_config_key p,
      string_to_config_key-string a ha,
      string_to_config_key-string b hb,
    )

-- With the divider in a part two keys may share their text: it can move to the next part.
pub string_collision :
    (m p a b v c w : String)
    → string (record {
      msp_id = m;
      peer_id = p;
      app_name = a;
      app_version = b ++ ("!" ++ v);
      component_name = c;
      component_version = w;
    })
      ≡ string (record {
        msp_id = m;
        peer_id = p;
        app_name = a ++ ("!" ++ b);
        app_version = v;
        component_name = c;
        component_version = w;
      })
unfolding string join
string_collision m p a b v c w = simp append_assoc
