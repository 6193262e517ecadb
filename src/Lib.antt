-- ===== src/Lib.antt =====
-- bugpot, a scale-to-zero container host: an HTTP router asks the controller for the address of an
-- app; the controller starts, freezes, replaces and stops the app's containers through a runtime and
-- an egress layer; the egress layer hands out addresses and answers the containers' DNS queries by
-- an allowlist for each app; an admin API deploys, updates and removes apps.
--
-- Base holds what the others share: tests and the conditional, lists over native numbers, results,
-- texts as lists of code points with their UTF-8 bytes, their lines and words, and hash maps as
-- association lists.
-- Config models crates/bugpot-config/src/lib.rs: the specification (Config.Spec), the validators of
-- names (Config.Label), of volumes (Config.Volumes) and of repositories (Config.Image, which also has
-- `resolve_auth` of crates/bugpot-core/src/lib.rs), and `AppSpec::validate` (Config.Validate).
-- Core models crates/bugpot-core. Core.Handle is src/handle.rs, the state machine of one app;
-- Core.Registry is src/registry.rs, the two indexes of the apps; Core.Lifecycle is
-- src/ops/lifecycle.rs, cold start, resume, freeze and stop; Core.Rollout is src/ops/rollout.rs,
-- the blue-green replacement of a container; Core.Loops is a part of src/ops/loops.rs;
-- Core.View is src/view.rs and src/ops/resolver.rs; Core.Store is src/store.rs and src/persist.rs,
-- the files of the specifications and of the rollouts; Core.AppHost is the state that the operations
-- on the set of apps share, and Core.Crud is src/ops/crud.rs, deploy, update and remove; Core.Boot is
-- src/ops/boot.rs, the takeover of the containers of an earlier run; Core.Probe is src/probe.rs, the
-- wait for an app's port, and the reader of src/mempressure.rs.
-- Egress models crates/bugpot-egress: Egress.Allocator, Egress.Allowlist, Egress.Store (endpoints.rs),
-- Egress.Engine (`EgressOps for Egress` of lib.rs), Egress.Setup (`Egress::new`, with the endpoints
-- that an earlier run has left), Egress.Dns, Egress.Netns, the names and commands of netns.rs, and
-- Egress.Nft, the scripts of nft.rs and the flush of the allow set.
-- Router models crates/bugpot-router/src/lib.rs: Router.Host is `subdomain_of`, Router.Headers the
-- functions on headers, Router.Upgrades the permits and counters of upgraded connections, as steps of
-- any request or task, Router.Forward the handler of a request, and Router.Splice the copying between
-- the two sides of an upgraded connection with its idle watchdog.
-- Admin models crates/bugpot-admin/src: Admin.DeployKey is deploy_key.rs, Admin.Auth the checks of
-- tokens, Admin.Status is error.rs, and Admin.Handlers the handlers of the requests.
-- Runtime models crates/bugpot-runtime/src. From spec.rs: the process of a container
-- (Runtime.Process), its user (Runtime.User) and the rest of its OCI specification (Runtime.Oci).
-- Runtime.Cgroup is cgroup_stats.rs and Runtime.Volumes volumes.rs. Runtime.Image is image.rs, the
-- cache of images: its layers (Runtime.Image.Layer), the extraction of an image, step by step with
-- what a crash at any step leaves (Runtime.Image.Extract), the collection of unused images
-- (Runtime.Image.Gc) and the pulls, of which tasks that ask for one reference share one
-- (Runtime.Image.Puller). Runtime.Container is runtime.rs, the calls that start, freeze, stop and
-- clean up a container. Runtime.Logs is logs.rs, the tail of a log file, and Runtime.Seccomp the
-- translation of seccomp.rs.
-- Daemon models cmd/bugpotd/src (Daemon.Secrets, Daemon.Settings with the thresholds of bootstrap.rs,
-- and Daemon.Bootstrap, the bring-up as a sequence of steps) and cmd/bugpot/src/main.rs, the client
-- of the admin API (Daemon.Client). Egress.Setup reads what the earlier run left and Core.Boot takes
-- it over; Daemon.Bootstrap has both as steps whose results are arbitrary.
--
-- An operation on an app is a function of an environment and a world (Core.Host). The environment
-- holds the answers of the runtime, of the egress layer, of the readiness probe and of the clock, as
-- arbitrary functions of the calls made so far, and `others`: what the other tasks do to the handle
-- before each critical section of the operation. A theorem over every environment so holds under
-- every interleaving of critical sections. The world holds the handle, the number of critical
-- sections so far and the calls so far. Core.Host.Ledger reads off the calls what they owe: which
-- endpoints and containers were allocated and started and not yet asked to go. It counts the calls of
-- one operation, a release or a stop also when it fails, and is not the state of the kernel. `anyhow`
-- errors keep their origin and cause, without their texts.
-- The controller reaches the egress layer through that interface only; Egress.Engine is not run
-- there. An operation on the set of apps (Core.AppHost) has the registry and the files as its state,
-- and `between` in place of `others`: what other tasks do to both before each access.
--
-- Five loops are on fuel. `ensure_running` has one unit for each turn, and `ok none` means that every
-- turn found another task starting or stopping the app. The drain of a rollout has one unit for each
-- look at the counter; 601 are enough, since the first look is at the start, at least 100 ms pass
-- between two, and the drain gives up after 60 s.
-- `wait_for_ready` has one unit for each attempt; one more than the polls that fit into the timeout
-- is enough. `coordinated_pull` has one unit for each turn, and `ok none` means that every turn found
-- another task pulling. The watchdog of a splice has one unit for each sleep of half the timeout,
-- which may end late; the sleeps that fit into what is left of the timeout, and one more, are enough.
--
-- Parameters, being code of other packages: `humantime::parse_duration`, `ipnet` and the parsers of
-- addresses, the upstream DNS resolver, the kernel commands that attach and detach a network
-- namespace, `toml`, the answers of the file system, the runs of `nft` with the parser of its JSON,
-- HMAC-SHA256 and `hex`, the header maps of `http`, the router's client and rewriting of URIs, the
-- default mounts of `oci-spec`, the registry client, the decoder of `flate2`, `serde_json`, and the
-- answers of libcontainer. A `Notify`, an `Instant` and a slot of a pull are numbers. Logging and
-- metrics are left out, but for the increments of the CPU counter. Not modelled: the set-up of the
-- router's server with its time and size limits, the routes of the admin API and its audit lines,
-- the tar archives of the layers, the check of capabilities, the running of `ip`, the set-up of
-- metrics and of tracing, and the arguments and the output of the client.
pub mod Admin
pub mod Base
pub mod Config
pub mod Core
pub mod Daemon
pub mod Egress
pub mod Router
pub mod Runtime
