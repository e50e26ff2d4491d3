-- ===== src/Lib.antt =====
-- Universal Login: a relayer takes messages that the owners of a wallet contract signed, collects
-- signatures until the contract's requirement is met, queues the message, and executes it on the
-- blockchain, paid from the wallet. This development models the relayer with its HTTP routes, the SDK
-- that posts messages to it and polls their status, the shared functions that both rest on, and the
-- services of the wallet application.
--
-- Files, with paths from the repository's root:
--   Prelude.antt and Prelude/: Boolean tests, lists and strings as JavaScript has them, and calls
--     that read and write a state and may throw.
--   Commons/Ethers.antt: the package ethers as parameters: hashes, signature recovery, big numbers.
--   Commons/Message.antt: universal-login-commons/lib/core/models/message.ts,
--     core/utils/messages/changingMessageFields.ts, and calculateMessageHash.
--   Commons/Signing.antt: calculateMessageSignature, core/utils/messages/signMessage.ts and
--     core/utils/calculateSignature.ts: a message is completed and signed.
--   Commons/Json.antt: the values of HTTP bodies.
--   Commons/Signatures.antt, Commons/Cosigning.antt: concatenateSignatures and
--     calculateMessageSignatures of calculateMessageSignature.ts.
--   Relayer/Errors.antt and Relayer/Errors/Status.antt: universal-login-relayer/lib/core/utils/
--     errors.ts and http/middlewares/errorHandler.ts.
--   Relayer/Database.antt: the tables, and the blockchain as a request sees it.
--   Relayer/PendingStore.antt, Relayer/QueueStore.antt: PendingMessagesSQLStore.ts and
--     MessageQueueSQLStore.ts of integration/sql/services. QueueStore/Order.antt and
--     QueueStore/Delivery.antt say which row is taken.
--   Relayer/KeyOrder.antt: sortSignatureKeyPairsByKey of core/utils/utils.ts.
--   Relayer/PendingMessages.antt: core/services/messages/PendingMessages.ts. Its children say how a
--     call of add ends, and what holds of the tables between calls.
--   Relayer/Authorisation.antt: integration/sql/services/authorisationService.ts.
--   Relayer/Calls.antt: encode.ts of universal-login-contracts/lib and serialisation.ts.
--   Relayer/Execution.antt: MessageExecutor.ts, validations.ts, MessageValidator.ts, and
--     onTransactionSent of MessageHandler.ts.
--   Relayer/Queue.antt: MessageQueueService.ts, its children the turns of its loop.
--   Relayer/Handler.antt: MessageHandler.ts.
--   Commons/Selection.antt: universal-login-commons/lib/core/services, the names that are offered
--     to a user; Commons/Selection/Suggested.antt says which. Commons/Debounce.antt:
--     core/utils/debounce.ts as steps of calls, time and timers. Commons/Waiting.antt:
--     core/utils/wait.ts, in rounds of a tick. With a positive tick, as many rounds as the timeout
--     has milliseconds, and two, are enough for waitUntil; waitExpect needs no more than the timeout.
--   Relayer/Deployment.antt: integration/ethereum/WalletService.ts (deploy) and ensService.ts, with
--     the functions of universal-login-commons that they call; Relayer/Creating.antt: create.
--   Relayer/Http.antt: http/utils/sanitizers.ts; Http/Routes.antt: the handlers of http/routes,
--     Http/Schemas.antt: which bodies their routers let through.
--   Relayer/Granting.antt: the listeners of http/relayers/TokenGrantingRelayer.ts and of
--     DevelopmentRelayer.ts. Relayer/Http/Devices.antt takes a device's request from the SDK's body
--     to the relayer's table and back.
--   Wallet.antt: universal-login-wallet/src/integration/storage/WalletService.ts and
--     core/presenters/WalletPresenter.ts; Wallet/Sessions.antt is about sequences of calls.
--   Wallet/Errors.antt: core/errors.ts; Wallet/Tokens.antt: TokenService.ts, EtherBalanceService.ts
--     and BalanceService.ts; Wallet/Transfers.antt: TransferService.ts and Notifications.ts.
--   Sdk/Errors.antt, Sdk/RelayerApi.antt, Sdk/Retry.antt: utils/errors.ts, RelayerApi.ts with
--     utils/http.ts, and utils/retry.ts of universal-login-sdk/lib.
--   Sdk/Client.antt: the messages of sdk.ts and config.ts; Sdk/Values.antt: how answers are read;
--     Client/Keys.antt: the calls that change a wallet's keys; Client/Names.antt: configuration,
--     names, and requests of devices. Client/Posting.antt, Client/Sending.antt and
--     Client/Waiting.antt are about the requests that these make.
--   Sdk/Observers.antt: observers/ObserverBase.ts and RelayerObserver.ts;
--     Sdk/BlockchainObserver.antt and Sdk/BalanceObserver.antt: the files of these names.
--   Sdk/FutureWallets.antt: services/FutureWalletFactory.ts and utils/counterfactual.ts.
--   Sdk/Signer.antt: SdkSigner.ts.
--   Sdk/DeploymentObserver.antt: observers/DeploymentObserver.ts with the loop of ObserverRunner.ts
--     around its ticks; Sdk/Runner.antt: observers/ObserverRunner.ts by itself, as events in any order;
--     Client/Lifecycle.antt: start, stop and finalizeAndStop of sdk.ts over two such runners.
--   Example/History.antt, EnsNames.antt, Wallets.antt, Backups.antt: HistoryService.js,
--     EnsNameService.js, WalletService.js and BackupService.js of
--     universal-login-example/src/services.
--   Contracts.antt: encode.ts, ProxyUtils.ts, FutureDeployment.ts and deployFactory.ts of
--     universal-login-contracts/lib; Contracts/Agreement.antt says that a wallet is
--     initialized with the arguments that the library sets up.
--   Ops.antt: ENS/DomainRegistrar.ts of universal-login-ops/src; Ops/Names.antt: ENSNameRegistrar.ts.
--     Ops/Domains.antt, Ops/Serving.antt, Names/Steps.antt and Names/Taken.antt say what they leave
--     on the chain, and what the relayer makes of it.
--   Tests.antt and Tests/: concrete inputs.
--
-- How the parts interact: the handler gives a message to PendingMessages, which stores it through
-- the pending store and queues it in the queue store. The loop of the queue takes the oldest waiting
-- row, has it executed, and writes the end of the execution into both stores. Every operation is a
-- function from the tables to a result and the tables after it; what was written before an exception
-- stays written, since the program uses no database transactions. An operation runs as one step.
--
-- The SDK's calls read and write a line to the relayer, which holds the time and the requests that
-- were made. What `fetch` answers is a parameter of these requests; what the SDK posts is a value that
-- the relayer's routes take.
--
-- The loop of the queue is a function of the number of its turns. In the state `stopping`, one turn
-- more than messages wait is enough. The loop of `retry` is a function of a number of rounds; as many
-- as the timeout has milliseconds are enough, where a round takes a millisecond at least. All other
-- recursion is on lists, or on a number that is the length of what is read; a decimal has at most as
-- many digits as the number plus one.
--
-- The loops of the example's services are functions of the sleeps that end; nothing else runs in a
-- round. A runner of the SDK is taken at its waits only, and what its tick does is left open there.
--
-- Not modelled: the interleaving of two requests within one operation, the loss of the database
-- connection, ethers, restless, fetch and JSON.parse, which are parameters, the ticks of the SDK's
-- observers while another call waits, the connection of the wallet application to a wallet, the
-- other services of the example application, the command line scripts, the Solidity contracts with
-- what the node and ENS make of a call, which is a parameter, and all views.
pub mod Prelude
pub mod Commons
pub mod Relayer
pub mod Wallet
pub mod Sdk
pub mod Contracts
pub mod Example
pub mod Ops
pub mod Tests
