-- ===== src/Lib.antt =====
-- NextDeploy: a daemon that deploys Next.js applications on a host, and the command line that talks
-- to it (daemon/, shared/, cli/).
--
-- The parts, and the files that model them:
--   daemon/internal/daemon/security.go: Daemon/RateLimiter (RateLimiter, Allow), Daemon/ReplayGuard
--     (ReplayGuard, Check), Daemon/Access (VerifySignature, IsIPAllowed) and Daemon/Clock (the
--     durations and instants that they compute with).
--   daemon/internal/daemon/command_handler.go: Daemon/Commands (HandleCommand, ValidateCommand, with
--     handleConnection of socket_server.go and SendCommand of daemon/internal/client/client.go),
--     Daemon/Releases (shortSha, resolveRollbackTarget, releasesToPrune), Daemon/Locks (appLocker),
--     Daemon/Activation (activateRelease and pruneReleases, with GenerateServiceFile and
--     RemoveService of process_manager.go and the ports of state_manager.go), Daemon/Health
--     (waitForHealthy), Daemon/Destroy (handleDestroy), Daemon/RollbackHandler (handleRollback),
--     Daemon/StopHandler (handleStopApp, with StopService of process_manager.go),
--     Daemon/ShipHandler (handleShip and readMetadata).
--   daemon/internal/daemon/caddy_manager.go: Daemon/Caddy (commitFragmentSafely, GenerateConfig,
--     EnsureMainCaddyfile, Reload, Validate, RemoveConfig).
--   daemon/internal/daemon/process_manager.go: Daemon/Services (names of units, FindAppServices,
--     resolveExecStart).
--   daemon/internal/daemon/fingerprint.go: Daemon/Fingerprint (DriftWarnings, CheckRuntimeDrift).
--   daemon/internal/daemon/secrets_handler.go: Daemon/Secrets (handleSecrets and its actions, with
--     findActiveService of status_handler.go), Daemon/EnvFile (quoteEnvValue and the file that
--     renderEnvFile writes); Daemon/Arguments (StringArg and validateAppName of utils.go).
--   shared/updater/updater.go: Updater/Versions (splitVer, compareVersions, isNewer),
--     Updater/Checksums (downloadChecksums, verifyBinaryIntegrity, detectArchiveName),
--     Updater/SelfUpdate (selfUpdateWithOptions, downloadBinary, atomicReplace).
--   cli/internal/serverless/cfstate/cfstate.go: Manifest (Set, Get, List, Orphans, Save, Load).
--   cli/internal/serverless/cloudflare_*.go: Cloudflare/Api (the calls of the API), Cloudflare/Ensure
--     (KV namespaces, queues, AI gateways, Vectorize indexes), Cloudflare/Hyperdrive, Cloudflare/D1,
--     Cloudflare/Bindings (cloudflare_bindings.go: the bindings and metadata of a worker's script),
--     Cloudflare/Dns (with getZoneID of cloudflare.go), Cloudflare/Plan (cloudflare_plan.go),
--     Cloudflare/Provision (cloudflare_resources.go and cloudflare_apply.go), Cloudflare/Zone,
--     Cloudflare/Teardown.
--   shared/nextcompile/: NextCompile/Modules (types.go), NextCompile/Paths and NextCompile/Layouts
--     (scanner.go: routes and kinds of compiled files, attachLayoutChains), NextCompile/Dispatch
--     (dispatch.go: literals, route patterns, partitionRefs; Dispatch/Emit: the text of the table),
--     NextCompile/Actions (parseUpstreamManifest and stabilize of actions.go), NextCompile/Contents
--     (BuildManifest of manifest.go), NextCompile/Versions (DetectVersions of version_detect.go).
--   shared/protection/protection.go: Protection (BuildRuntime). shared/nextcore/features.go: Csp
--     (DetectFeatures, BuildCSP). shared/caddy/caddy.go: Caddyfile (GenerateCaddyfile).
--   shared/archive.go: Archive (ExtractTarGz, withinDir). shared/envstore/env.go: EnvStore (Store,
--     ReadEnvFile).
-- Common holds what they share: tests on numbers, lists, texts, maps, sorting, and the functions of
-- Go's packages strings and path/filepath that the parts use (Common/FilePath).
--
-- A connection is decoded, its command validated, and passed through four gates in turn: the rate
-- limit, the whitelist, the signature, and the replay guard. What passes is handed to the handler of
-- its kind, and its answer goes to the audit log, if that can be written. Ship, rollback and
-- destroy take the lock of their app first.
--
-- An activation is a sequence of steps on the state of the host, each of which may fail; what was
-- done before a failure stays done, but for what the code undoes. What the host answers to each call
-- (systemctl, the file system, the health check, Caddy) is a record of outcomes.
--
-- A deploy to Cloudflare is a sequence of steps on the account, each of which may fail; the account is
-- a type of states that only the writing calls change, and every answer of the API is a parameter.
-- Provisioning takes the declared resources in order, stops at the first error, and saves the
-- manifest either way; the dry run reads the account through the same functions that find a resource.
--
-- A compilation gives each compiled file a route and a kind, gives pages the layouts above them, and
-- writes the table by which the worker finds the module of a request, with the actions that the build
-- lists and the manifest that the worker reads at run time. A release is unpacked as a sequence of
-- calls to the file system, of which each may fail. The policy of an app goes into its Caddy fragment.
--
-- A method that changes an object returns the new object; an error is a value. A Go string is a list
-- of bytes, and a map an association list with distinct keys. Clocks are numbers of nanoseconds since
-- 1970, durations signed 64-bit numbers of nanoseconds with the saturation of Time.Sub and the
-- wrap-around of negation. The clock readings of successive calls do not fall, as those of the
-- monotonic clock of Go. The tokens of the rate limiter are exact numbers of 10^-9 tokens, where the
-- source has float64; rates and bursts are whole numbers. Loops run over lists, so that no fuel is
-- needed; the loop of resolveRollbackTarget counts down the positions that are left, and downloadBinary
-- its three attempts. The loop of waitForHealthy runs on fuel, of which one for each 100 ms of the
-- timeout and one more is enough, since no pause is shorter. The climb of attachLayoutChains from a
-- page to the root, and that of readDepVersions, have fuel for the bytes of the path and one more: each
-- step takes at least one off.
-- Letters are folded as ASCII, and a text is walked by bytes where the source walks valid UTF-8.
--
-- Parameters: package net, the HMAC, ciphers, hashes, JSON, the search for a program, the commit that
-- a release's metadata.json holds, the handlers behind the switch of HandleCommand, what the host
-- answers during an activation, a stop, a change of secrets or an update, the unpacking of archives, the
-- Cloudflare API, the parsing of URLs, the directory of migrations, `caddy validate`, the entries of an
-- archive, the path of a file relative to another, and the order in which sort.Slice leaves equal
-- elements.
-- Not modelled: sockets and TLS, logging and the texts of messages, the text of units, the copy of
-- static assets, the saving of the daemon's own state, the owners and permissions of directories,
-- the reading and hashing of the files of a build and the search of their text by regular
-- expressions, the consumers of queues, the sweep of buckets and the workers of Cloudflare, the AWS
-- provider, and the printing of the command line.
mod Common
pub mod Daemon
pub mod Updater
pub mod Manifest
pub mod Cloudflare
pub mod NextCompile
pub mod Protection
pub mod Csp
pub mod Caddyfile
pub mod Archive
pub mod EnvStore
