-- ===== src/Tests/Sockets.antt =====
-- Requests for spoofing sockets, with a key that is used again.
use dead_nodes_tell_no_tales.Prelude.{
  ◌-◌, List, [], ◌∷◌, length, drop, ◌≡◌, refl, text_discrete, ℕ_discrete, address_discrete,
}
use dead_nodes_tell_no_tales.Outcome.{ok}
use dead_nodes_tell_no_tales.Config.{max_spoof_sockets}
use dead_nodes_tell_no_tales.Dict.{keys, get?, put, remove}
use dead_nodes_tell_no_tales.Exec.{for_each, ◌>>=◌}
use dead_nodes_tell_no_tales.Mesh.Spoof.{get_spoof_sock}
use dead_nodes_tell_no_tales.Mesh.Spoof.LastUses.{Key, last_uses}
use dead_nodes_tell_no_tales.Mesh.Spoof.Recency.{ask_all, ask_all-last_uses}
use dead_nodes_tell_no_tales.Tests.Fixtures.{env_b, live, node_a, node_c}

abbrev wanted : List Key
wanted = (node_a, 5000) ∷ (node_c, 7) ∷ (node_a, 5000) ∷ []

ask_all_run : keys (ask_all env_b wanted live).1.spoof_sockets ≡ (node_c, 7) ∷ (node_a, 5000) ∷ []
unfolding for_each get_spoof_sock get? put remove address_discrete text_discrete ℕ_discrete ◌>>=◌
ask_all_run = refl

ask_all-last_uses_example :
    ((ask_all env_b wanted live).0 ≡ ok tt)
    × (keys (ask_all env_b wanted live).1.spoof_sockets
        ≡ drop (length (last_uses [] wanted) - max_spoof_sockets) (last_uses [] wanted))
ask_all-last_uses_example = ask_all-last_uses env_b wanted live refl
