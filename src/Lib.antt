-- ===== src/Lib.antt =====
-- etcd-cloud-operator: an operator that runs one etcd server on each instance of an auto-scaling group,
-- and seeds, joins, backs up and restores the cluster.
--
-- The parts, and the files that model them. Paths are from the repository's root.
--
--   pkg/providers/snapshot (metadata.go)       Snapshot: Metadata, NewMetadata (new_metadata), Filename,
--                                              IsValid and MetadataSorter.Less (less)
--   pkg/providers/snapshot/file                Snapshot/File: Save, Info, Get, Purge and Configure on a directory, which
--                                              is a map from names to files
--   pkg/providers/snapshot/s3                  Snapshot/S3: Save, Info, Get, Purge and Configure on a bucket
--   pkg/providers/snapshot/etcd                Snapshot/Local: the data of the local server as a snapshot
--   pkg/providers/snapshot/snapshot.go         Snapshot/Store: the interface Provider as a contract, with the
--                                              file and the S3 provider as implementations
--   pkg/providers/asg                          Groups: Configure and AutoScalingGroupStatus of the stateful set,
--                                              docker and AWS
--   pkg/etcd/misc.go                           Etcd/Config: the types of the configuration, URLs
--   pkg/etcd/validate.go                       Etcd/Validate: Validate
--   pkg/etcd/client.go                         Etcd/Client: IsHealthy, ForEachMember, IsConsistent and the rest, with
--                                              NewClient in Etcd/Client/Connect and Cleanup in Etcd/Client/Cleanup;
--                                              Lock, AddMember and RemoveMember are in Etcd/Server/Membership
--   pkg/etcd/server.go                         Etcd/Server: SnapshotInfo; Etcd/Server/Start: startServer, Restore
--                                              and Seed; Etcd/Server/Membership: Join; Etcd/Server/Snapshots:
--                                              Snapshot, Stop, runErrorWatcher and a round of runSnapshotter;
--                                              Etcd/Server/Cleaner: a round of runMemberCleaner
--   pkg/operator/misc.go                       Operator/Status: fetchStatuses and its helpers
--   pkg/operator/misc.go, pkg/providers/*/     Operator/Providers: the registers of providers (Register, AsMap
--                                              and AsList, once for each package) and initProviders
--   pkg/operator/acl.go                        Operator/Acl: Apply has applyACLConfig and removeACLConfig,
--                                              Reconcile has enableACL, getOldACLConfig, reconcileInitACLConfig
--   pkg/operator/operator.go                   Operator/Execute: evaluate, execute, wait and the status;
--                                              Operator/Run: Run, as a step relation
--   cmd/operator/config.go                     Operator/Loading: defaultConfig and loadConfig
--   pkg/tester                                 Tester: Cases has the test cases, Health isHealthy, Trial runTest and
--                                              the data marker, Stress the requests of the stresser
--
-- How they interact. The operator evaluates its group: what the instances answer gives it the counts of
-- their states and whether it is the seeder. `decide` is the switch of execute, `act` calls the methods of
-- the server, which run in the monad M of Etcd/Effects: the state is the record World, with the mutable
-- fields of the server and the calls made so far, newest first, and a method ends in a value, an error or a
-- panic. What etcd, the file system and the snapshot provider answer is the record Env, each answer a
-- function of the calls before it, so that a theorem holds for all of them; a hypothesis on Env is named
-- where it is made, such as IsExclusive for etcd's lock.
--
-- The access control runs in the same way on the record AclEnv of Operator/Acl/Effects.
--
-- Strings are lists of bytes. Signed integers are the data type ℤ; an int64 that is parsed is tested to be
-- in range. A slice that the code compares with reflect.DeepEqual is nil or a list (Slice of Etcd/Config).
-- Durations are in nanoseconds. Maps are association lists; where Go ranges over a map in any order, a theorem is about every
-- list. The sort of package sort is any function that permutes its input and orders it (Prelude/Sorting).
-- Goroutines of ForEachMember send in any order, which is an argument. IsConsistent makes the fifteen rounds
-- of the code. Loops are structural, but for the digits of a number, which have fuel for as many as the number
-- itself, and the wait of the tester for a healthy cluster, which has no bound in the code: its fuel is enough
-- where four checks in a row will find the cluster healthy by then.
--
-- Run is the relation Reachable of Operator/Run: a turn is an evaluation, an action and a wait, and what the
-- turn meets is the record Circumstances.
-- In each turn the provider names this instance, or does not (nameless of Sight), which panics.
-- A theorem on several instances takes a state of each. The size of a group, an int in the code, is a desired
-- capacity or a count here, and so not negative.
--
-- Not modelled: logging and metrics, which change nothing; timeouts, other than as an answer that fails; how
-- the goroutines of the server interleave, other than that they may leave any world between two turns; ssh,
-- by which the tester runs a command, and the rate of its requests; failures that the code does not look at of
-- unlocking, of closing a session and of removing a temporary file; paths that are not clean.
pub mod Prelude
pub mod Snapshot
pub mod Etcd
pub mod Operator
pub mod Tester
pub mod Groups
