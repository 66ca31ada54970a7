-- ===== src/X3dh/SessionKeys.antt =====
-- crates/trelis-x3dh-pq/src/session_keys.rs: the keys of a session from the shared secret.
use trelis.Common.{ℕ, List, [], ◌∷◌}
use trelis.Primitives.Interface.{Primitives}

-- "trelis-session-root-v1"
abbrev pub root_key_context : List ℕ
root_key_context =
    116 ∷ 114 ∷ 101 ∷ 108 ∷ 105 ∷ 115 ∷ 45 ∷ 115 ∷ 101 ∷ 115 ∷ 115 ∷ 105 ∷ 111 ∷ 110 ∷ 45 ∷ 114
    ∷ 111 ∷ 111 ∷ 116 ∷ 45 ∷ 118 ∷ 49 ∷ []

-- "trelis-session-send-v1"
abbrev pub send_chain_context : List ℕ
send_chain_context =
    116 ∷ 114 ∷ 101 ∷ 108 ∷ 105 ∷ 115 ∷ 45 ∷ 115 ∷ 101 ∷ 115 ∷ 115 ∷ 105 ∷ 111 ∷ 110 ∷ 45 ∷ 115
    ∷ 101 ∷ 110 ∷ 100 ∷ 45 ∷ 118 ∷ 49 ∷ []

-- "trelis-session-recv-v1"
abbrev pub recv_chain_context : List ℕ
recv_chain_context =
    116 ∷ 114 ∷ 101 ∷ 108 ∷ 105 ∷ 115 ∷ 45 ∷ 115 ∷ 101 ∷ 115 ∷ 115 ∷ 105 ∷ 111 ∷ 110 ∷ 45 ∷ 114
    ∷ 101 ∷ 99 ∷ 118 ∷ 45 ∷ 118 ∷ 49 ∷ []

pub record SessionKeys : Type 0 where
  pub root_key : List ℕ
  pub send_chain_key : List ℕ
  pub recv_chain_key : List ℕ

module _ (p : Primitives) where
  unfoldable pub derive : List ℕ → SessionKeys
  derive shared_secret = record {
    root_key = p.derive_key root_key_context shared_secret;
    send_chain_key = p.derive_key send_chain_context shared_secret;
    recv_chain_key = p.derive_key recv_chain_context shared_secret;
  }

unfoldable pub swap_directions : SessionKeys → SessionKeys
swap_directions k = record {
  root_key = k.root_key;
  send_chain_key = k.recv_chain_key;
  recv_chain_key = k.send_chain_key;
}
