-- ===== src/Node/Members.antt =====
-- pkg/raft/node.go: the members of the cluster. hashicorp/raft keeps them, and is a parameter.
pub mod Laws
mod Tests
use doq.Common.{true, false, ◌&&◌, ◌||◌, List, [], ◌∷◌}
use doq.Common.Text.{Text, text_eq}
use doq.Errors.{Result, ok, err}

pub record Server : Type 0 where
  pub id : Text
  pub address : Text

-- The changes of the configuration that Raft commits.
pub record Membership : Type 1 where
  pub State : Type 0
  pub servers : State → Result (List Server)
  pub remove_server : State → Text → Result State
  pub add_voter : State → Text → Text → Result State

module _ (R : Membership) where
  -- The servers of the configuration that was read at first, and those that are left of it. A server with
  -- the id or the address goes; one with both is the node itself.
  unfoldable pub join_loop : R.State → List Server → Text → Text → Result R.State
  join_loop s [] node_id addr = R.add_voter s node_id addr
  join_loop s (server ∷ rest) node_id addr =
      let same_id = text_eq server.id node_id in
      let same_address = text_eq server.address addr in
      elim (same_id || same_address) [
        | false ↦ join_loop s rest node_id addr
        | true ↦ elim (same_address && same_id) [
          | true ↦ ok s
          | false ↦ elim (R.remove_server s server.id) [
            | err e ↦ err e
            | ok s' ↦ join_loop s' rest node_id addr
          ]
        ]
      ]

  unfoldable pub join : R.State → Text → Text → Result R.State
  unfolding join_loop
  join s node_id addr = elim (R.servers s) [
    | err e ↦ err e
    | ok servers ↦ join_loop s servers node_id addr
  ]

  unfoldable pub leave : R.State → Text → Result R.State
  leave s node_id = R.remove_server s node_id
