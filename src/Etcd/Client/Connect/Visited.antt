-- ===== src/Etcd/Client/Connect/Visited.antt =====
-- Which members ForEachMember visits without an error.
use mathlib.Core.Option.{none-ne-some}
use etcd_cloud_operator.Prelude.{
  Text, Option, none, some, List, [], ◌∷◌, All, Outcome, ok, err, panic, false, ok-injective, ◌≡◌,
  ◌≢◌, ◌↔◌, refl, sym, ◌∙◌, ap,
}
use etcd_cloud_operator.Etcd.Config.{SecurityConfig, url_to_address}
use etcd_cloud_operator.Etcd.Client.{no_client, failed, done}
use etcd_cloud_operator.Etcd.Client.Gather.{AllDone}
use etcd_cloud_operator.Etcd.Client.Connect.{
  ConnectEnv, Client, Listed, new_client, visited, visited_by, visit, visits,
}

-- A client of the member could be made, and `f` ran on it without an error.
abbrev pub IsVisited :
    ConnectEnv → SecurityConfig → (Client → Listed → Option Text) → Listed → Type 0
IsVisited env sc f m =
    (client : Client) × (new_client env (url_to_address env.host m.peer_url ∷ []) sc false
      ≡ ok client)
    × (f client m ≡ none)

failed-ne-done : {e : Text} → failed e ≢ done
failed-ne-done h = cc

no_client-ne-done : {e : Text} → no_client e ≢ done
no_client-ne-done h = cc

visited-done : (o : Option Text) → (visited o ≡ done) ↔ (o ≡ none)
unfolding visited
visited-done none = (λ h. refl, λ h. refl)
visited-done (some e) = (λ h. absurd (failed-ne-done h), λ h. absurd (none-ne-some e (sym h)))

err-ne-client : {e : Text} {c : Client} → ¬ (◌≡◌ {A = Outcome Text Client} (err e) (ok c))
err-ne-client h = cc

panic-ne-client : {c : Client} → ¬ (◌≡◌ {A = Outcome Text Client} panic (ok c))
panic-ne-client h = cc

visited_by-done :
    (f : Client → Option Text) (r : Outcome Text Client)
    → (visited_by f r ≡ done) ↔ ((client : Client) × (r ≡ ok client) × (f client ≡ none))
unfolding visited_by
visited_by-done f (ok client) = (
  λ h. (client, refl, (visited-done (f client)).0 h),
  λ (c, same, h). (visited-done (f client)).1 (ap f (ok-injective same) ∙ h),
)
visited_by-done f (err e) =
    (λ h. absurd (no_client-ne-done h), λ (c, same, h). absurd (err-ne-client same))
visited_by-done f panic =
    (λ h. absurd (no_client-ne-done h), λ (c, same, h). absurd (panic-ne-client same))

-- Every goroutine ends without an error just when every member is visited.
pub visits-IsVisited :
    (env : ConnectEnv) (sc : SecurityConfig) (f : Client → Listed → Option Text) (ms : List Listed)
    → AllDone (visits env sc f ms) ↔ All (IsVisited env sc f) ms
unfolding visits visit
visits-IsVisited env sc f [] = (λ h. tt, λ h. tt)
visits-IsVisited env sc f (m ∷ ms) =
    let (to, from) =
      visited_by-done (λ client. f client m)
        (new_client env (url_to_address env.host m.peer_url ∷ []) sc false) in
    let (to_rest, from_rest) = visits-IsVisited env sc f ms in
    (λ (h, rest). (to h, to_rest rest), λ (h, rest). (from h, from_rest rest))
