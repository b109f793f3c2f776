-- ===== src/Ganglion/Multicast/Reactions/Peers.antt =====
-- How many peers there are.
use pyplexo.Base.{ℕ, ◌≡◌, ◌≤◌, ◌+◌, ap, [], ◌∷◌, Map, insert, ℕ_key, arith, insert-insert, length}
use pyplexo.Schema.{PlexoHeartbeat}
use pyplexo.Ganglion.Multicast.Reactions.{
  on_heartbeat, on_peers_tick, run_events, react_to, heartbeat_reaction, num_peers_loop, recent,
}
use pyplexo.Ganglion.Multicast.State.{Ganglion, Env}

recent-le : (now interval : ℕ) (m : Map ℕ ℕ) → recent now interval m ≤ length m
unfolding recent
recent-le now interval [] = omega arith
recent-le now interval (e ∷ m) = ground (arith, recent-le now interval m)

recent-insert :
    (now interval id t : ℕ) (m : Map ℕ ℕ)
    → now ≤ t + interval
    → 1 ≤ recent now interval (insert id t m)
unfolding recent
recent-insert now interval id t [] h = ground arith
recent-insert now interval id t (e ∷ m) h = ground (arith, recent-insert now interval id t m)

-- If the last of two heartbeats of an instance is not older than the interval at the tick, the peers
-- counted are as many as if it had sent only the last, and at least one.
pub heartbeat_counts_once :
    (env : Env) (h : PlexoHeartbeat) (t u now : ℕ) (s : Ganglion)
    → now ≤ u + s.extra.heartbeat_interval_seconds
    → let peers = (run_events env (on_heartbeat h u ∷ on_peers_tick now ∷ []) s).extra.num_peers in
      ((run_events env
          (on_heartbeat h t ∷ on_heartbeat h u ∷ on_peers_tick now ∷ [])
          s).extra.num_peers
        ≡ peers)
      × (1 ≤ peers)
unfolding run_events react_to heartbeat_reaction num_peers_loop
heartbeat_counts_once env h t u now s fresh = (
  ap (recent now s.extra.heartbeat_interval_seconds)
      (insert-insert h.instance_id u t s.extra.heartbeats),
  recent-insert now s.extra.heartbeat_interval_seconds h.instance_id u s.extra.heartbeats fresh,
)
