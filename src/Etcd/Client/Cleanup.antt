-- ===== src/Etcd/Client/Cleanup.antt =====
-- pkg/etcd/client.go: Cleanup, which compacts the history of the cluster and defragments its members.
pub mod Laws
use etcd_cloud_operator.Prelude.{
  Text, codes, ℕ, ℤ, Bool, true, false, not, ◌&&◌, Option, none, some, List, [], ◌∷◌, Outcome, ok,
  err, panic, contains, if◌then◌else◌,
}
use etcd_cloud_operator.Etcd.Config.{SecurityConfig, tls_enabled, client_url, url_to_address}
use etcd_cloud_operator.Etcd.Client.{ClientError, for_each_member}
use etcd_cloud_operator.Etcd.Client.Connect.{ConnectEnv, Client, Listed, visits}

-- What etcd answers: the error of a compaction to a revision, and of a defragmentation at a URL, the text
-- of `ErrCompacted`, and the members, if they can be listed.
pub record CleanupEnv : Type 0 where
  pub connect : ConnectEnv
  pub on_compact : ℤ → Option Text
  pub on_defragment : Text → Option Text
  pub err_compacted : Text
  pub on_members : Option (List Listed)

pub data CleanupError : Type 0 where
  no_revision : ClientError → CleanupError
  not_compacted : Text → CleanupError
  not_listed : CleanupError
  not_defragmented : List Text → CleanupError

-- `f` of Cleanup.
unfoldable pub defragment : CleanupEnv → Client → Listed → Option Text
defragment env client m = env.on_defragment (
    client_url (url_to_address env.connect.host m.peer_url)
      (tls_enabled env.connect.tls_empty client.sc))

-- The errors that ForEachMember returns; none where the order is not one in which the goroutines can send.
aggregated : Option (List Text) → Option (Option CleanupError)
aggregated none = none
aggregated (some []) = some none
aggregated (some (e ∷ errors)) = some (some (not_defragmented (e ∷ errors)))

defragment_all :
    CleanupEnv → SecurityConfig → List ℕ → Option (List Listed) → Option (Option CleanupError)
unfolding aggregated
defragment_all env sc order none = some (some not_listed)
defragment_all env sc order (some members) =
    aggregated (for_each_member order (visits env.connect sc (defragment env) members))

-- The error of a compaction that was made before is none.
unfoldable pub compact_failed : CleanupEnv → Option Text → Option Text
compact_failed env none = none
compact_failed env (some e) = if contains e env.err_compacted then none else some e

after_compact : CleanupEnv → SecurityConfig → List ℕ → Option Text → Option (Option CleanupError)
unfolding defragment_all
after_compact env sc order none = defragment_all env sc order env.on_members
after_compact env sc order (some e) = some (some (not_compacted e))

-- `Cleanup`, on what GetHighestRevision returns, and with the goroutines sending in this order: its error,
-- which is none for nil; there is no result where getting the revision panics either.
unfoldable pub cleanup :
    CleanupEnv → SecurityConfig → List ℕ → Outcome ClientError ℤ → Option (Option CleanupError)
unfolding after_compact compact_failed
cleanup env sc order (ok rev) = after_compact env sc order (compact_failed env (env.on_compact rev))
cleanup env sc order (err e) = some (some (no_revision e))
cleanup env sc order panic = none
