-- ===== src/Config/Key.antt =====
-- The keys of configurations: `ConfigKey` of configmanager/api/configmanager.go and the functions of
-- configmanager/pkg/mgmt/util.go. `len(s) == 0` on a text is the test against "".
pub mod Validity
pub mod RoundTrip
pub mod Equality
use fabric_snaps.Common.{String, ◌==◌, ◌&&◌, not, List, [], ◌∷◌, if◌then◌else◌}
use fabric_snaps.Common.Strings.{join, split}
use fabric_snaps.Errors.{Result, ok, err, invalid_config_key, ◌>>=◌, ◌>>◌}

pub record ConfigKey : Type 0 where
  pub msp_id : String
  pub peer_id : String
  pub app_name : String
  pub app_version : String
  pub component_name : String
  pub component_version : String

abbrev pub key_divider : String
key_divider = "!"

unfoldable pub validate_config_key : ConfigKey → Result (Unit {0})
validate_config_key k =
    if k.msp_id == ""
    then err invalid_config_key
    else if k.peer_id == "" && k.app_name == ""
    then err invalid_config_key
    else if not (k.peer_id == "") && k.app_name == ""
    then err invalid_config_key
    else if k.app_version == ""
    then err invalid_config_key
    else ok tt

-- The Go function also returns the invalid key beside the error, which no caller reads.
unfoldable pub create_config_key :
    String → String → String → String → String → String → Result ConfigKey
create_config_key m p a v c w = do
  let k : ConfigKey = record {
    msp_id = m;
    peer_id = p;
    app_name = a;
    app_version = v;
    component_name = c;
    component_version = w;
  }
  validate_config_key k
  ok k

-- The parts of a key in the order in which its text holds them.
abbrev pub parts : ConfigKey → List String
parts k =
    k.msp_id ∷ k.peer_id ∷ k.app_name ∷ k.app_version ∷ k.component_name ∷ k.component_version ∷ []

-- `ConfigKey.String`
unfoldable pub string : ConfigKey → String
string k = join (parts k) "!"

unfoldable pub config_key_to_string : ConfigKey → Result String
config_key_to_string k = do validate_config_key k; ok (join (parts k) key_divider)

-- `len(keyParts) < 6` is the last clause; parts after the sixth are dropped.
from_parts : List String → Result ConfigKey
from_parts (m ∷ p ∷ a ∷ v ∷ c ∷ w ∷ rest) = ok (record {
  msp_id = m;
  peer_id = p;
  app_name = a;
  app_version = v;
  component_name = c;
  component_version = w;
})
from_parts _ = err invalid_config_key

unfoldable pub string_to_config_key : String → Result ConfigKey
unfolding from_parts
string_to_config_key key = from_parts (split key b'!')
