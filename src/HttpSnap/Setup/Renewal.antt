-- ===== src/HttpSnap/Setup/Renewal.antt =====
-- When the instance takes a new configuration.
use fabric_snaps.Common.{String, ◌≡◌, refl, Bool, true, false, Option, none, some, arith}
use fabric_snaps.Errors.{Result, ok, err}
use fabric_snaps.HttpSnap.Config.{HttpConfig}
use fabric_snaps.HttpSnap.Outcome.{returned}
use fabric_snaps.HttpSnap.Platform.{Platform}
use fabric_snaps.HttpSnap.Setup.{
  ConfigSource, HttpState, new_config, new_http_service, renew, initialize,
}

-- The configuration that the instance should have: the one it has, unless it has none or the new one is
-- reported as changed.
abbrev pub renewed : Option HttpConfig → HttpConfig → Bool → HttpConfig
renewed none config dirty = config
renewed (some current) config true = config
renewed (some current) config false = current

module _ {Pool Keys : Type 0} (p : Platform Pool Keys) where
  renew-returned :
      (r : Result (HttpConfig × Bool)) (st : HttpState Pool Keys) (c : HttpConfig)
      → (renew p r st).0 ≡ returned c
      → (config : HttpConfig) × ((dirty : Bool) × ((r ≡ ok (config, dirty))
            × ((renewed st.instance_config config dirty ≡ c)
                × ((renew p r st).1.instance_config ≡ some c))))
  unfolding renew initialize
  renew-returned (err e) st c h = cc
  renew-returned (ok (config, dirty)) st c h =
      (config, (dirty, (refl, (ground (arith), ground (arith)))))

  -- A service that Get returns works with the configuration that it gave back: the one that the instance
  -- had, unless it had none or the configuration of the channel is reported as changed; then with that
  -- one.
  pub new_http_service-returned :
      (source : ConfigSource) (channel_id : String) (st : HttpState Pool Keys) (c : HttpConfig)
      → (new_http_service p source channel_id st).0 ≡ returned c
      → (config : HttpConfig) × ((dirty : Bool) × (((new_config source p.to_lower channel_id
                st.configs).0
              ≡ ok (config, dirty))
            × ((renewed st.instance_config config dirty ≡ c)
                × ((new_http_service p source channel_id st).1.instance_config ≡ some c))))
  unfolding new_http_service
  new_http_service-returned source channel_id st c h =
      renew-returned (new_config source p.to_lower channel_id st.configs).0 _ c h
