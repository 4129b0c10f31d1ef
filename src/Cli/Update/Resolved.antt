-- ===== src/Cli/Update/Resolved.antt =====
-- What the references to files in a message are replaced by.
use fabric_snaps.Common.{
  String, ◌≡◌, refl, none, some, List, [], ◌∷◌, arith, ◌⊎◌, inl, inr, All, All-map, map,
}
use fabric_snaps.Errors.{ok}
use fabric_snaps.Config.Parse.{Bytes}
use fabric_snaps.Config.Message.{ConfigMessage, PeerConfig, AppConfig, ComponentConfig}
use fabric_snaps.HttpSnap.Outcome.{Outcome, returned}
use fabric_snaps.Cli.{Codec, Files}
use fabric_snaps.Cli.Update.{
  collect, slices, file_ref, unmarshal, read_file_ref, peer_app_text, app_text, resolve_peer_app,
  resolve_peer, resolve_component, resolve_app, update_app_config_info, resolve_message,
  config_from_string,
}

-- A loop whose body gives the function's value at each element maps the function.
collect-map :
    {A B : Type 0} (body : A → Outcome B) (f : A → B) (xs : List A)
    → All (λ x. body x ≡ returned (f x)) xs
    → collect body xs ≡ returned (map f xs)
unfolding collect
collect-map body f [] h = refl
collect-map body f (x ∷ xs) h = rw (h.0, collect-map body f xs h.1) refl

-- A message with each text replaced by its content, except those of a peer's components
module _ (content : String → String) where
  abbrev pub replace_text : AppConfig → AppConfig
  replace_text app = record app { config = content app.config }

  abbrev pub replace_peer : PeerConfig → PeerConfig
  replace_peer peer = record { peer_id = peer.peer_id; app = map replace_text peer.app }

  abbrev pub replace_component : ComponentConfig → ComponentConfig
  replace_component c = record c { config = content c.config }

  abbrev pub replace_app : AppConfig → AppConfig
  replace_app app = record {
    app_name = app.app_name;
    version = app.version;
    config = content app.config;
    components = map replace_component app.components;
  }

  abbrev pub replace_message : ConfigMessage → ConfigMessage
  replace_message m = record {
    msp_id = m.msp_id;
    peers = map replace_peer m.peers;
    apps = map replace_app m.apps;
  }

  module _ (files : Files) (base : String) where
    -- The content of a reference is that of its file, and any other text is its own content.
    abbrev pub Reads : String → Type 0
    Reads text =
        ((file_ref text ≡ none) × (content text ≡ text))
        ⊎ ((path : String) × (file_ref text ≡ some path)
            × (read_file_ref files base path ≡ some (content text)))

    -- The text of a peer's app has the seven bytes that are compared.
    abbrev pub ReadsLong : String → Type 0
    ReadsLong text = ((parts : String × String) × (slices 7 text ≡ some parts)) × Reads text

    abbrev pub ReadsPeer : PeerConfig → Type 0
    ReadsPeer peer = All (λ app. ReadsLong app.config) peer.app

    abbrev pub ReadsApp : AppConfig → Type 0
    ReadsApp app = Reads app.config × All (λ c. Reads c.config) app.components

    app_text-Reads :
        (text : String) → Reads text → app_text files base text ≡ returned (content text)
    unfolding app_text
    app_text-Reads text (inl (n, e)) = rw (n, e) refl
    app_text-Reads text (inr (path, p, e)) = rw (p, e) refl

    peer_app_text-Reads :
        (text : String) → ReadsLong text → peer_app_text files base text ≡ returned (content text)
    unfolding peer_app_text file_ref
    peer_app_text-Reads text ((parts, p), inl (n, e)) = ground (arith, p, n, e)
    peer_app_text-Reads text ((parts, p), inr (path, f, e)) = ground (arith, p, f, e)

    resolve_peer_app-replaced :
        (app : AppConfig)
        → ReadsLong app.config
        → resolve_peer_app files base app ≡ returned (replace_text app)
    unfolding resolve_peer_app
    resolve_peer_app-replaced app r = rw (peer_app_text-Reads app.config r) refl

    resolve_component-replaced :
        (c : ComponentConfig)
        → Reads c.config
        → resolve_component files base c ≡ returned (replace_component c)
    unfolding resolve_component
    resolve_component-replaced c r = rw (app_text-Reads c.config r) refl

    resolve_peer-replaced :
        (peer : PeerConfig)
        → ReadsPeer peer
        → resolve_peer files base peer ≡ returned (replace_peer peer)
    unfolding resolve_peer
    resolve_peer-replaced peer h =
        rw
          (collect-map (resolve_peer_app files base) replace_text peer.app
            (All-map resolve_peer_app-replaced peer.app h))
          refl

    resolve_app-replaced :
        (app : AppConfig) → ReadsApp app → resolve_app files base app ≡ returned (replace_app app)
    unfolding resolve_app
    resolve_app-replaced app (h, hs) =
        rw
          (
            app_text-Reads app.config h,
            collect-map (resolve_component files base) replace_component app.components
                (All-map resolve_component-replaced app.components hs),
          )
          refl

    resolve_message-replaced :
        (message : ConfigMessage)
        → All ReadsPeer message.peers
        → All ReadsApp message.apps
        → resolve_message files base message ≡ returned (replace_message message)
    unfolding resolve_message update_app_config_info
    resolve_message-replaced message hp ha =
        rw
          (
            collect-map (resolve_peer files base) replace_peer message.peers
                (All-map resolve_peer-replaced message.peers hp),
            collect-map (resolve_app files base) replace_app message.apps
                (All-map resolve_app-replaced message.apps ha),
          )
          refl

    -- If the text of the configuration is that of a message, each reference in the message is to a file
    -- that can be read, and the texts of the peers' apps have at least seven bytes, then the message that
    -- update works with is this message with the contents of the files for the references, except in the
    -- components of the peers' apps, and every name and version is kept.
    pub config_from_string-replaced :
        (json : Codec) (text : Bytes) (message : ConfigMessage)
        → unmarshal json text ≡ ok (some message)
        → All ReadsPeer message.peers
        → All ReadsApp message.apps
        → config_from_string files base json text ≡ returned (replace_message message)
    unfolding config_from_string
    config_from_string-replaced json text message u hp ha =
        let r = resolve_message-replaced message hp ha in ground (arith, u, r)
