-- ===== src/Network/Ssh.antt =====
-- network/ssh.go: the algorithms and files of the SSH configuration.
use primordium.Base.{ℕ, ◌*◌, ◌^◌, Bytes, codes, List, [], ◌∷◌}

-- `ssh.Config`, as far as it is set.
pub record Config : Type 0 where
  pub key_exchanges : List Bytes
  pub ciphers : List Bytes
  pub macs : List Bytes

-- `DefaultSSHConfig`
unfoldable pub default_ssh_config : Config
default_ssh_config = record {
  key_exchanges = codes "curve25519-sha256" ∷ codes "curve25519-sha256@libssh.org" ∷ [];
  ciphers =
      codes "chacha20-poly1305@openssh.com"
      ∷ codes "aes256-gcm@openssh.com"
      ∷ codes "aes128-gcm@openssh.com"
      ∷ [];
  macs = codes "hmac-sha2-256-etm@openssh.com" ∷ codes "hmac-sha2-512-etm@openssh.com" ∷ [];
}

-- `ssh.KeyAlgoED25519`, as package ssh documents it.
abbrev pub key_algo_ed25519 : Bytes
key_algo_ed25519 = codes "ssh-ed25519"

-- `DefaultSSHHostKeyAlgorithms`
unfoldable pub default_ssh_host_key_algorithms : List Bytes
default_ssh_host_key_algorithms = key_algo_ed25519 ∷ []

-- In nanoseconds.
abbrev pub default_ssh_connection_timeout : ℕ
default_ssh_connection_timeout = 30 * 10 ^ 9

abbrev pub default_ssh_keepalive_timeout : ℕ
default_ssh_keepalive_timeout = 15 * 10 ^ 9

unfoldable pub default_identity_files : List Bytes
default_identity_files = codes "~/.ssh/id_ed25519" ∷ codes "~/.ssh/id_ed25519_sk" ∷ []
