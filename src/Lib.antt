-- ===== src/Lib.antt =====
-- Fabric snaps: models of the configuration manager and its cache, of the configuration snap's
-- chaincode and its command line client, of the transaction snap's handlers, reference counter, client
-- cache and client, of the HTTP snap, and of the membership service, with their correctness.
--
-- How the parts work together. An organisation sends a configuration message to the configuration snap.
-- The chaincode checks the caller's access, and the configuration manager parses the message into a map
-- of keys and values, writes each value to the ledger under the text of its key and writes an index entry
-- for its organisation. The configuration service reads the organisation's configurations through the
-- index and serves them from a cache, in which each component has all its versions under its key without
-- a version. The transaction snap runs a transaction through a chain of handlers, which select endorsers,
-- decide whether a commit is needed and send the transaction. Its clients are cached by channel and
-- renewed when the configuration changes; a wrapper acquires a client for each operation, and a reference
-- counter closes an old client once the last user has released it. The HTTP snap reads its configuration
-- from the configuration service, checks a request by it, sends it over TLS with the client's key, at
-- most to peers with pinned keys, and checks the response.
--
-- The files, with the code they model (paths from the repository's root):
--   Common and its children: tests, lists, association lists for Go's maps, join and split of texts.
--   Errors: util/errors/codes.go, and the result of a call that may fail; Errors/Texts: the texts of the
--     codes and the errors of util/errors/errors.go; Errors/Causes: its errors inside errors.
--   Exec: code that changes a state and may fail, whose writes stay after an error.
--   Config/Key: ConfigKey of configmanager/api/configmanager.go and configmanager/pkg/mgmt/util.go
--     (ValidateConfigKey is validate_config_key, ConfigKey.String is string, and so on).
--   Config/Message: the message's structs and IsValid of configmanager/api/configmanager.go.
--   Config/Parse: ParseConfigMessage of configmanager/pkg/mgmt/configmanager.go; Parse/Entries describes
--     a message as one list of entries, Parse/Stored the map that they make.
--   Config/Stub: what the manager uses of Fabric's chaincode stub, and what the ledger promises.
--   Config/Manager: Save, Get and Delete of configmanager/pkg/mgmt/configmanager.go; Manager/Saved and
--     Manager/Persisted are about Save, Manager/Deleted and Manager/Erased about Delete.
--   Config/Service: configmanager/pkg/service/configmgmtservice.go; Service/Expected describes
--     what a refresh should build, Service/Growth and Service/Refreshed are about what it builds, and
--     Service/Served about what is served from it.
--   RefCount: util/refcount/refcount.go, with the calls' interleavings in RefCount/Step, the accounts
--     that each step keeps in RefCount/Balance and the closing of the resource in RefCount/Closing.
--   Handler: the handlers of transactionsnap/pkg/client/handler: Handler/WriteSet and
--     Handler/CheckForCommit (checkforcommit.go), Handler/CommitTx (committx.go), Handler/PeerFilter
--     (peerfilter.go and preendorsed.go), with theorems in Ignored, Forwarding, Registration, Attempts.
--   Snap: configurationsnap/cmd/configurationscc/configurationscc.go, with theorems in Snap/Access.
--     Snap/Settings models config/config.go beside it, Snap/Csr the generation of keys and certificate
--     requests (Csr/Requested), and Snap/Refreshing Init, the listener and the refresh of the cache
--     (Refreshing/Intervals).
--   Membership: membershipsnap/pkg/membership/membership.go and mspidmgr.go, with Membership/Identities
--     about the MSP IDs; Membership/Chaincode: membershipsnap/cmd/membershipsnap.go, with Chaincode/Answered
--     about its successful responses.
--   Client: transactionsnap/pkg/client/client.go; Client/Validation is about transaction IDs,
--     Client/Retries about retry codes, and Client/Endorsers models the endorser filter. Client/Channel is
--     what the SDK's InvokeHandler promises, and Client/Transactions endorseTransaction, commitTransaction
--     and commitOnlyTransaction, with Transactions/Advances about one run of their handlers,
--     Transactions/Committed about the flag of a commit and Transactions/Unsent about requests that commit
--     nothing. Client/Peers: the peers that a client finds. Client/Provider: newServiceProvider and the
--     options of chprovider/chprovider.go, with Provider/Starts about where events start.
--   Client/Wrapper: transactionsnap/pkg/client/clientwrapper.go, with Wrapper/Traces about what a method
--     does; Client/Cached: cache.go beside it and newClient of client.go, with Cached/Made and
--     Cached/Renewed.
--   HttpSnap: httpsnap/cmd. HttpSnap/Config models config/config.go (with Config/Preloaded about the headers
--     and schemas), HttpSnap/KeyCache httpsnapservice/cache.go (KeyCache/Fresh), HttpSnap/Certificates and
--     HttpSnap/Tls the TLS configuration and the dialer of httpsnapservice/httpsnapservice.go and tls.go
--     (Certificates/Blocks, Tls/Pins), HttpSnap/Service the checks of a request and what is sent for it
--     (Service/Accepted, Service/Headers), HttpSnap/Invocation the two tries and invoker.go
--     (Invocation/Unsent, Tries, Answers, Valid, Pinned), HttpSnap/Setup the configuration of the instance
--     (Setup/Renewal), and HttpSnap/Chaincode httpsnap.go (Chaincode/Responses). HttpSnap/Outcome is code
--     that may panic, and HttpSnap/Platform what the snap uses of libraries.
--   Cli: the options of configurationsnap/cmd/configcli and what the command line client uses of libraries.
--     Cli/Action: action/action.go, with Action/Selected about its targets; Cli/Update: updatecmd/updatecmd.go,
--     with Update/Resolved about references to files; Cli/Commands: deletecmd, querycmd and generatecsr,
--     with Commands/Queries about generateCSR; Cli/Sent, Update/Saves and Commands/Deletes are about what
--     the commands send.
--   TxnService: transactionsnap/pkg/txsnapservice/txsnapservice.go. TxnSnap: transactionsnap/cmd/transactionsnap.go
--     and util/statemgr/statemgr.go, with TxnSnap/Requests and TxnSnap/Due about the calls of a client that
--     it makes and TxnSnap/Commits about those that a commit makes. Client/Methods: the wrapper's methods by name.
--   TxnSettings and its child Defaults: transactionsnap/pkg/config/config.go. Client/Signatures:
--     verifyTxnProposalSignature of client.go and GetCreatorFromSignedProposal of util/utils.go.
--     Client/PeerFilters: transactionsnap/pkg/client/peerfilter.
--   Examples: concrete instances of the parameters, and the theorems at concrete inputs.
--
-- Conventions. A state is passed explicitly. An error is its code. Bytes are texts, and bytes that may be
-- nil are an option. The order in which Go ranges over a map is a parameter. The selection of endorsers
-- recurs on the number of attempts that are left, as the source's loop counts them down, so no bound is
-- added. An int32 of the reference counter is its two's complement below 2 ^ 32. A goroutine takes one
-- atomic operation per step. The loops over PEM blocks have the length of the text as their fuel, which
-- is enough since each block is shorter than the text before it (Certificates/Blocks). The wait of the
-- client wrapper takes a unit of fuel for each client that refuses; a wait that goes on is a result of its
-- own. The answers of Fabric, the SDK, encoding/json and protobuf are parameters.
--
-- Not modelled: the SDK's channel client and the caches of the channel provider, the cryptography of keys
-- and certificate requests, the flags and the output of the command line client, metrics, logging, health
-- checks and the tests: they call other systems or are glue around them.
pub mod Common
pub mod Errors
pub mod Exec
pub mod Config
pub mod RefCount
pub mod Handler
pub mod Snap
pub mod Membership
pub mod Cli
pub mod Client
pub mod HttpSnap
pub mod TxnService
pub mod TxnSnap
pub mod TxnSettings
pub mod Examples
