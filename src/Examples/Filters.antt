-- ===== src/Examples/Filters.antt =====
-- A signature, and a filter by block height.
use fabric_snaps.Common.{◌≡◌, ◌↔◌, refl, true, false, some, List, [], ◌∷◌, ◌==◌, ◌&&◌}
use fabric_snaps.Errors.{ok}
use fabric_snaps.Membership.{PeerEndpoint}
use fabric_snaps.TxnService.{PeerFilterOpts}
use fabric_snaps.Client.Signatures.{
  Protobuf, ChannelMembership, verify_txn_proposal_signature, IsSigned,
  verify_txn_proposal_signature_iff,
}
use fabric_snaps.Client.PeerFilters.{
  HeightSource, HeightFilter, new_peer_filter, new_height_filter, accept, HighEnough,
  accept-HighEnough,
}

abbrev protobuf : Protobuf
protobuf = record {
  unmarshal_signed_proposal =
      λ b. some (record { proposal_bytes = some "proposal"; signature = "sig" });
  get_proposal_header = λ b. some (some "header");
  get_signature_header = λ b. some (some "signature header");
  get_creator = λ b. some "creator";
}

abbrev membership : ChannelMembership
membership = record {
  validate = λ creator. creator == "creator";
  verify = λ creator msg sig. (msg == "proposal") && (sig == "sig");
}

verify_txn_proposal_signature_iff_example :
    (verify_txn_proposal_signature protobuf (some membership) "signed" ≡ ok tt)
    ↔ IsSigned protobuf (some membership) "signed"
verify_txn_proposal_signature_iff_example =
    verify_txn_proposal_signature_iff protobuf (some membership) "signed"

abbrev peers : List PeerEndpoint
peers =
    record {
      endpoint = "peer0:7051";
      msp_id = "Org1";
      ledger_height = 5;
      left_channel = false;
      roles = [];
    }
    ∷ []

abbrev source : HeightSource
source = record {
  get_service = true;
  get_peers_of_channel = λ channel. some peers;
  parse_uint = λ s. some 4;
}

abbrev opts : PeerFilterOpts
opts = record { filter_type = "MinBlockHeight"; args = "mychannel" ∷ "4" ∷ [] }

abbrev filter : HeightFilter
filter = record { channel_id = "mychannel"; height = 4 }

makes_filter : new_peer_filter source opts ≡ ok filter
unfolding new_peer_filter new_height_filter
makes_filter = refl

accept-HighEnough_example :
    (accept source filter "grpc://peer0:7051" ≡ true)
    ↔ HighEnough source 4 peers "grpc://peer0:7051"
accept-HighEnough_example =
    accept-HighEnough source opts filter "mychannel" "4" [] 4 peers "grpc://peer0:7051" makes_filter
      refl refl refl
