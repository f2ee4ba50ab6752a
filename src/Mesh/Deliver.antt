-- ===== src/Mesh/Deliver.antt =====
-- `MeshProxy.process_and_deliver`. It calls the controller, and the controller, at the end of a
-- snapshot, calls it for each recorded message: the depth of these calls is bounded by the
-- interpreter's recursion limit of 1000 frames, at four frames a round.
pub mod Live
use dead_nodes_tell_no_tales.Prelude.{ℕ, zero, suc, Bytes, Text, Bool, true, false, if◌then◌else◌}
use dead_nodes_tell_no_tales.Outcome.{recursion_error}
use dead_nodes_tell_no_tales.Config.{Settings}
use dead_nodes_tell_no_tales.Node.{Node, Message}
use dead_nodes_tell_no_tales.Exec.{Exec, pure, raise, ◌>>=◌, ◌>>◌}
use dead_nodes_tell_no_tales.Mesh.Spoof.{spoof_send}
use dead_nodes_tell_no_tales.Snapshot.Flush.{Deliver}
use dead_nodes_tell_no_tales.Snapshot.Marker.{process_message}

abbrev pub recursion_depth : ℕ
recursion_depth = 250

module _ (env : Settings) where
  -- One round, over the calls below it.
  unfoldable pub deliver_over : Deliver → Deliver
  deliver_over below seq payload ip src_port dst_port target_local_ip = do
    consumed ← process_message env below ip (record {
      seq = seq;
      payload = payload;
      src_port = src_port;
      dst_port = dst_port;
      target_local_ip = target_local_ip;
    })
    if consumed then pure tt else spoof_send env ip src_port payload target_local_ip dst_port

  unfoldable pub deliver_within : ℕ → Deliver
  deliver_within zero seq payload ip src_port dst_port target_local_ip = raise recursion_error
  deliver_within (suc depth) seq payload ip src_port dst_port target_local_ip =
      deliver_over (deliver_within depth) seq payload ip src_port dst_port target_local_ip

  unfoldable pub process_and_deliver : Deliver
  unfolding deliver_within
  process_and_deliver = deliver_within recursion_depth
