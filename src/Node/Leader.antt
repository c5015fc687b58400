-- ===== src/Node/Leader.antt =====
-- pkg/raft/leader_configuration.go: the addresses of the leader. The net package splits and joins
-- addresses, and is a parameter.
use doq.Common.{Bool, true, false, [], Option, some}
use doq.Common.Text.{Text}

pub record Net : Type 0 where
  pub split_host_port : Text → Option (Text × Text)
  pub join_host_port : Text → Text → Text

pub record LeaderConfig : Type 0 where
  pub id : Text
  pub http_addr : Text
  pub raft_addr : Text
  pub grpc_addr : Text
  pub leader_http_addr : Text
  pub leader_grpc_addr : Text
  pub leader_raft_addr : Text

unfoldable pub new_leader_config : Text → Text → Text → LeaderConfig
new_leader_config node_id raft_addr grpc_addr = record {
  id = node_id;
  http_addr = [];
  raft_addr = raft_addr;
  grpc_addr = grpc_addr;
  leader_http_addr = [];
  leader_grpc_addr = [];
  leader_raft_addr = [];
}

module _ (net : Net) where
  -- The host of the Raft address with the ports of the three; the addresses that clients use change only
  -- if all three can be split.
  abbrev pub with_addresses :
      LeaderConfig
      → Option (Text × Text)
      → Option (Text × Text)
      → Option (Text × Text)
      → LeaderConfig × Bool
  with_addresses c (some (host, raft_port)) (some (_, grpc_port)) (some (_, http_port)) = (
    record c {
      leader_grpc_addr = net.join_host_port host grpc_port;
      leader_http_addr = net.join_host_port host http_port;
      leader_raft_addr = net.join_host_port host raft_port;
    },
    true,
  )
  with_addresses c _ _ _ = (c, false)

  -- The new configuration, and whether it is complete: an address that cannot be split is an error.
  unfoldable pub set : LeaderConfig → Text → Text → Text → Text → LeaderConfig × Bool
  set c node_id raft_addr grpc_addr http_addr =
      with_addresses
        (record c {
          id = node_id;
          raft_addr = raft_addr;
          grpc_addr = grpc_addr;
          http_addr = http_addr;
        })
        (net.split_host_port raft_addr) (net.split_host_port grpc_addr)
        (net.split_host_port http_addr)
