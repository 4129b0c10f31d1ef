-- ===== src/Client/Methods.antt =====
-- The methods of the wrapper, transactionsnap/pkg/client/clientwrapper.go, each for the client's method of
-- the same name, with what it returns beside the error if there is no client.
use fabric_snaps.Common.{ℕ, Bool, false, Option, none, String}
use fabric_snaps.Client.Wrapper.{AnyError, Clients, WrapperState, invoke}

-- The methods of `clientImpl`. A value is nil if there is an error.
pub record ClientMethods (World Client : Type 0) : Type 1 where
  pub Request : Type 0
  pub Response : Type 0
  pub PreEndorsed : Type 0
  pub Callback : Type 0
  pub Peer : Type 0
  pub ChannelCfg : Type 0
  pub EventService : Type 0
  pub endorse_transaction : Request → Client → World → (Option Response × Option AnyError) × World
  pub commit_transaction :
      Request
      → Bool
      → Callback
      → Client
      → World
      → ((Option Response × Bool) × Option AnyError) × World
  pub commit_only_transaction :
      Request
      → PreEndorsed
      → Bool
      → Callback
      → Client
      → World
      → ((Option Response × Bool) × Option AnyError) × World
  pub verify_txn_proposal_signature : String → Client → World → (Unit {0} × Option AnyError) × World
  pub get_local_peer : Client → World → (Option Peer × Option AnyError) × World
  pub channel_config : Client → World → (Option ChannelCfg × Option AnyError) × World
  pub event_service : Client → World → (Option EventService × Option AnyError) × World
  pub get_discovered_peer : String → Client → World → (Option Peer × Option AnyError) × World

module _ {World Ref Client : Type 0} (clients : Clients World Ref Client)
    (methods : ClientMethods World Client) where
  -- A method with results `A`, and the wait for a client that it may still be in.
  abbrev pub Method : Type 0 → Type 0
  Method A =
      ℕ → WrapperState World Client → Option (A × Option AnyError) × WrapperState World Client

  -- `EndorseTransaction`
  unfoldable pub endorse_transaction : methods.Request → Method (Option methods.Response)
  endorse_transaction request = invoke clients none (methods.endorse_transaction request)

  -- `CommitTransaction`
  unfoldable pub commit_transaction :
      methods.Request → Bool → methods.Callback → Method (Option methods.Response × Bool)
  commit_transaction request register callback =
      invoke clients (none, false) (methods.commit_transaction request register callback)

  -- `CommitOnlyTransaction`
  unfoldable pub commit_only_transaction :
      methods.Request
      → methods.PreEndorsed
      → Bool
      → methods.Callback
      → Method (Option methods.Response × Bool)
  commit_only_transaction request response register callback =
      invoke clients (none, false)
        (methods.commit_only_transaction request response register callback)

  -- `VerifyTxnProposalSignature`
  unfoldable pub verify_txn_proposal_signature : String → Method (Unit {0})
  verify_txn_proposal_signature s = invoke clients tt (methods.verify_txn_proposal_signature s)

  -- `GetLocalPeer`
  unfoldable pub get_local_peer : Method (Option methods.Peer)
  get_local_peer = invoke clients none methods.get_local_peer

  -- `ChannelConfig`
  unfoldable pub channel_config : Method (Option methods.ChannelCfg)
  channel_config = invoke clients none methods.channel_config

  -- `EventService`
  unfoldable pub event_service : Method (Option methods.EventService)
  event_service = invoke clients none methods.event_service

  -- `GetDiscoveredPeer`
  unfoldable pub get_discovered_peer : String → Method (Option methods.Peer)
  get_discovered_peer url = invoke clients none (methods.get_discovered_peer url)
