-- ===== src/Examples/Clients.antt =====
-- The client's checks and the membership service.
use Prim.Native.String.{◌++◌ as concat}
use fabric_snaps.Common.{◌≡◌, refl, ◌↔◌, Option, String, true, false, none, some, List, [], ◌∷◌}
use fabric_snaps.Client.{Context, valid_txn, validate}
use fabric_snaps.Client.Validation.{Accepted, validate_iff}
use fabric_snaps.Membership.{PeerEndpoint, Decoder, MspIds, get_msp_id, receive}
use fabric_snaps.Membership.Chaincode
use fabric_snaps.Membership.Chaincode.Answered.{Asks, Encodes, invoke-ok}
use fabric_snaps.Errors.{ok}
use fabric_snaps.Membership.Identities.{last_identity, envelopes_of, receive-get_msp_id}

abbrev pub context : Context
context = record {
  serialize = some "creator";
  get_hash = true;
  digest = λ b. some (concat "id of " b);
  marshal_creator = λ c. some c;
}

validate_iff_example :
    (validate context "nonce" "id of noncecreator" ≡ valid_txn)
    ↔ Accepted context "nonce" "id of noncecreator"
validate_iff_example = validate_iff context "nonce" "id of noncecreator"

abbrev peers : List PeerEndpoint
peers =
    record {
      endpoint = "p0";
      msp_id = "Org1";
      ledger_height = 5;
      left_channel = false;
      roles = "committer" ∷ [];
    }
    ∷ record {
      endpoint = "p1";
      msp_id = "Org1";
      ledger_height = 5;
      left_channel = false;
      roles = "endorser" ∷ [];
    }
    ∷ []

-- An envelope is its identity, and a certificate its MSP ID.
abbrev decoder : Decoder (String × String)
decoder = record { peer_identity = λ e. some e; msp_id = λ cert. cert }

abbrev messages : List (Option (List (String × String)))
messages =
    some (("pki0", "Org1") ∷ ("pki1", "Org2") ∷ []) ∷ none ∷ some (("pki0", "Org3") ∷ []) ∷ []

receive-get_msp_id_example :
    (ids : MspIds) × (receive decoder messages [] ≡ some ids)
    × ((pki_id : String)
        → get_msp_id ids pki_id
          ≡ last_identity decoder pki_id (envelopes_of decoder messages) (get_msp_id [] pki_id))
receive-get_msp_id_example =
    receive-get_msp_id decoder messages []
      ((("pki0", "Org1"), refl), ((("pki1", "Org2"), refl), ((("pki0", "Org3"), refl), tt)))

abbrev service : Chaincode.Service
service = record { all_peers = peers; peers_of_channel = λ c. ok peers }

abbrev member_stub : Chaincode.Stub
member_stub = record {
  channel_id = "";
  has_endorser_role = true;
  membership_service = ok service;
  has_signed_proposal = true;
  is_member = true;
}

abbrev first_endpoint : List PeerEndpoint → Option String
first_endpoint [] = none
first_endpoint (p ∷ ps) = some p.endpoint

abbrev peers_arguments : List String
peers_arguments = "getPeersOfChannel" ∷ "ch" ∷ []

served_peers : Chaincode.invoke first_endpoint member_stub (some service) peers_arguments ≡ ok "p0"
unfolding Chaincode.invoke Chaincode.dispatch Chaincode.answer_peers_of_channel
served_peers = refl

invoke-ok_example :
    (member_stub.has_signed_proposal ≡ true)
    × (member_stub.is_member ≡ true)
    × (s : Chaincode.Service) × (some service ≡ some s)
    × (function : String) × (rest : List String) × (peers_arguments ≡ function ∷ rest)
    × (ps : List PeerEndpoint) × Asks s function rest ps
    × Encodes first_endpoint ps "p0"
invoke-ok_example =
    invoke-ok first_endpoint member_stub (some service) peers_arguments "p0" served_peers
