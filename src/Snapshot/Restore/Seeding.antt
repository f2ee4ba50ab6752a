-- ===== src/Snapshot/Restore/Seeding.antt =====
-- The coordinates of the peers of a restored node.
use dead_nodes_tell_no_tales.Prelude.{
  Text, true, false, List, [], ◌∷◌, map, ◌≡◌, refl, ap, ◌∙◌, arith, text_discrete, ite, if_pos,
  if_neg, subst, Bool-cases, inl, inr,
}
use dead_nodes_tell_no_tales.Outcome.{Outcome, ok}
use dead_nodes_tell_no_tales.Dict.{get?, or_else, mem}
use dead_nodes_tell_no_tales.Node.{Node, Peer, Controller, PeerArtifact}
use dead_nodes_tell_no_tales.Node.Peers.{
  peer_at, get_peer, update_peer, peer_at-get_peer, peer_at-update_peer, snapshot_ctrl-get_peer,
  events-get_peer,
}
use dead_nodes_tell_no_tales.Exec.{for_each, ◌>>=◌}
use dead_nodes_tell_no_tales.Snapshot.Artifact.{peer_artifact}
use dead_nodes_tell_no_tales.Snapshot.Restore.{seed, seed_peer}

-- Of a restored peer, the coordinates that were recorded are set, and nothing else is changed.
seed_peer_run :
    (ip : Text) (a : PeerArtifact) (n : Node)
    → seed_peer (ip, a) n ≡ (ok tt, update_peer ip (seed a) (get_peer ip n))
unfolding seed_peer ◌>>=◌
seed_peer_run ip a n = refl

seed-seed : (a : PeerArtifact) (p : Peer) → seed a (seed a p) ≡ seed a p
unfolding seed
seed-seed a p = ground arith

peer-seeded :
    (ip : Text) (a : PeerArtifact) (n : Node) (j : Text)
    → peer_at (update_peer ip (seed a) (get_peer ip n)) j
      ≡ ite (text_discrete ip j) (seed a (peer_at n ip)) (peer_at n j)
peer-seeded ip a n j =
    peer_at-update_peer (get_peer ip n) ip (seed a) j
    ∙ rw (peer_at-get_peer n ip ip, peer_at-get_peer n ip j)

-- The seeding of all peers.
pub record Seeded (c : Controller) (peers : List Text) (n : Node) (r : Outcome (Unit {0}) × Node)
    : Type 0 where
  pub returned : r.0 ≡ ok tt
  pub seeded :
      (ip : Text)
      → mem text_discrete peers ip ≡ true
      → peer_at r.1 ip ≡ seed (peer_artifact c ip) (peer_at n ip)
  pub untouched : (ip : Text) → mem text_discrete peers ip ≡ false → peer_at r.1 ip ≡ peer_at n ip
  pub snapshot_ctrl : r.1.snapshot_ctrl ≡ n.snapshot_ctrl
  pub events : r.1.events ≡ n.events

abbrev pub artifacts_of : Controller → List Text → List (Text × PeerArtifact)
artifacts_of c peers = map (λ peer. (peer, peer_artifact c peer)) peers

-- The state after one peer is seeded.
abbrev seed_one : Controller → Text → Node → Node
seed_one c ip n = update_peer ip (seed (peer_artifact c ip)) (get_peer ip n)

module _ (c : Controller) (first : Text) (rest : List Text) (n : Node)
    (r : Outcome (Unit {0}) × Node) (q : Seeded c rest (seed_one c first n) r) where
  first_seeded : peer_at (seed_one c first n) first ≡ seed (peer_artifact c first) (peer_at n first)
  first_seeded =
      peer-seeded first (peer_artifact c first) n first
      ∙ if_pos (text_discrete first first) refl _ _

  other_seeded : (ip : Text) → ¬ (first ≡ ip) → peer_at (seed_one c first n) ip ≡ peer_at n ip
  other_seeded ip ne =
      peer-seeded first (peer_artifact c first) n ip ∙ if_neg (text_discrete first ip) ne _ _

  -- A peer that stands in the list again is seeded alike.
  seeded_again :
      (ip : Text)
      → mem text_discrete rest ip ≡ true
      → peer_at r.1 ip ≡ seed (peer_artifact c ip) (peer_at n ip)
  seeded_again ip again = q.seeded ip again ∙ (elim (text_discrete first ip) [
    | yes p ↦
        subst
          (λ i.
            seed (peer_artifact c i) (peer_at (seed_one c first n) i)
            ≡ seed (peer_artifact c i) (peer_at n i))
          p
          (ap (seed (peer_artifact c first)) first_seeded
            ∙ seed-seed (peer_artifact c first) (peer_at n first))
    | no ne ↦ ap (seed (peer_artifact c ip)) (other_seeded ip ne)
  ])

  seeded_once :
      (ip : Text)
      → mem text_discrete rest ip ≡ false
      → mem text_discrete (first ∷ rest) ip ≡ true
      → peer_at r.1 ip ≡ seed (peer_artifact c ip) (peer_at n ip)
  unfolding mem
  seeded_once ip last e = q.untouched ip last ∙ (elim (text_discrete first ip) [
    | yes p ↦
        subst (λ i. peer_at (seed_one c first n) i ≡ seed (peer_artifact c i) (peer_at n i)) p
          first_seeded
    | no ne ↦ absurd (ground arith)
  ])

  Seeded-cons : Seeded c (first ∷ rest) n r
  unfolding mem
  Seeded-cons = record {
    returned = q.returned;
    seeded = λ ip e. elim (Bool-cases (mem text_discrete rest ip)) [
      | inl again ↦ seeded_again ip again
      | inr last ↦ seeded_once ip last e
    ];
    untouched = λ ip e. elim (text_discrete first ip) [
      | yes p ↦ absurd (ground arith)
      | no ne ↦ q.untouched ip (ground arith) ∙ other_seeded ip ne
    ];
    snapshot_ctrl = q.snapshot_ctrl ∙ (unfold update_peer in snapshot_ctrl-get_peer n first);
    events = q.events ∙ (unfold update_peer in events-get_peer n first);
  }

pub Seeded-peers :
    (c : Controller) (peers : List Text) (n : Node)
    → Seeded c peers n (for_each (artifacts_of c peers) seed_peer n)
unfolding for_each mem ◌>>=◌
Seeded-peers c [] n = record {
  returned = refl;
  seeded = λ ip e. absurd (ground arith);
  untouched = λ ip e. refl;
  snapshot_ctrl = refl;
  events = refl;
}
Seeded-peers c (first ∷ rest) n =
    rw (seed_peer_run first (peer_artifact c first) n)
      (Seeded-cons c first rest n _ (Seeded-peers c rest (seed_one c first n)))

-- Each recorded coordinate of each listed peer is set; a coordinate that was not recorded, what waits and
-- what is buffered stay; so does every other peer.
pub record Restored (c : Controller) (peers : List Text) (n s : Node) : Type 0 where
  pub send_seq :
      (ip : Text)
      → mem text_discrete peers ip ≡ true
      → (peer_at s ip).send_seq
        ≡ or_else (peer_at n ip).send_seq (get? text_discrete c.recorded_send_seq ip)
  pub recv_seq :
      (ip : Text)
      → mem text_discrete peers ip ≡ true
      → (peer_at s ip).recv_seq
        ≡ or_else (peer_at n ip).recv_seq (get? text_discrete c.recorded_recv_seq ip)
  pub unacked :
      (ip : Text)
      → mem text_discrete peers ip ≡ true
      → (peer_at s ip).unacked ≡ (peer_at n ip).unacked
  pub recv_buffer :
      (ip : Text)
      → mem text_discrete peers ip ≡ true
      → (peer_at s ip).recv_buffer ≡ (peer_at n ip).recv_buffer
  pub untouched : (ip : Text) → mem text_discrete peers ip ≡ false → peer_at s ip ≡ peer_at n ip
  pub snapshot_ctrl : s.snapshot_ctrl ≡ n.snapshot_ctrl
  pub events : s.events ≡ n.events

pub Restored-Seeded :
    (c : Controller) (peers : List Text) (n : Node) (r : Outcome (Unit {0}) × Node)
    → Seeded c peers n r
    → Restored c peers n r.1
unfolding seed peer_artifact
Restored-Seeded c peers n r s = record {
  send_seq = λ ip e. ap (λ (p : Peer). p.send_seq) (s.seeded ip e);
  recv_seq = λ ip e. ap (λ (p : Peer). p.recv_seq) (s.seeded ip e);
  unacked = λ ip e. ap (λ (p : Peer). p.unacked) (s.seeded ip e);
  recv_buffer = λ ip e. ap (λ (p : Peer). p.recv_buffer) (s.seeded ip e);
  untouched = s.untouched;
  snapshot_ctrl = s.snapshot_ctrl;
  events = s.events;
}
