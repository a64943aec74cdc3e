-- ===== src/Transport.antt =====
-- aerial_bridge/src/nvipc_transport.cpp and include/aerial_bridge/nvipc_transport.h: the life of the
-- handle to nvIPC.
pub mod Handles
use ocudu_aerial_fapi_connec.Common.{
  ℕ, ◌+◌, ◌-◌, Bool, true, false, ◌==◌, if◌then◌else◌, List, [], ◌∷◌, ◌++◌, Option, none, some,
  length, take,
}

-- Texts are lists of bytes.
pub record NvipcTransportConfig : Type 0 where
  pub prefix : List ℕ
  pub yaml_path : List ℕ

-- What `create_nv_ipc_interface` is given: what nvIPC read from the file at a path, or a shared
-- memory transport with a prefix.
pub data NvIpcConfig : Type 0 where
  loaded : List ℕ → NvIpcConfig
  secondary : List ℕ → NvIpcConfig

-- The members, and what was asked of nvIPC: the configurations of the handles created, and the
-- number of handles destroyed, semaphore posts included. `has_ipc` says whether `ipc_` is set.
pub record NvipcTransport : Type 0 where
  pub has_ipc : Bool
  pub connected : Bool
  pub created : List NvIpcConfig
  pub destroyed : ℕ
  pub tx_sem_posts : ℕ

unfoldable pub new_transport : NvipcTransport
new_transport = record {
  has_ipc = false;
  connected = false;
  created = [];
  destroyed = 0;
  tx_sem_posts = 0;
}

-- What nvIPC does in `connect`: whether the file is loaded, whether a handle is created, and the
-- size `NV_NAME_MAX_LEN` of its name buffers.
pub record NvIpcAnswers : Type 0 where
  pub yaml_loads : Bool
  pub creates : Bool
  pub nv_name_max_len : ℕ

-- The rest of `connect`, from `create_nv_ipc_interface` on; a null handle is stored as well.
unfoldable pub create_interface : Bool → NvIpcConfig → NvipcTransport → Bool × NvipcTransport
create_interface false cfg t = (false, record t { has_ipc = false })
create_interface true cfg t =
    (true, record t { has_ipc = true; connected = true; created = t.created ++ (cfg ∷ []) })

unfoldable pub is_empty : List ℕ → Bool
is_empty [] = true
is_empty (b ∷ bs) = false

-- `strncpy` of at most `NV_NAME_MAX_LEN - 1` bytes into a zeroed buffer.
unfoldable pub connect :
    NvIpcAnswers → NvipcTransportConfig → NvipcTransport → Bool × NvipcTransport
connect answers cfg t =
    if t.connected
    then (true, t)
    else if is_empty cfg.yaml_path
    then create_interface answers.creates
        (secondary (take (answers.nv_name_max_len - 1) cfg.prefix)) t
    else if answers.yaml_loads
    then create_interface answers.creates (loaded cfg.yaml_path) t
    else (false, t)

unfoldable pub disconnect : NvipcTransport → NvipcTransport
disconnect t =
    if t.has_ipc
    then record t { destroyed = t.destroyed + 1; has_ipc = false; connected = false }
    else t

-- The forwarding functions dereference `ipc_`: `none` is a null pointer.
pub with_ipc {ℓ} : {A : Type ℓ} → NvipcTransport → A → Option A
with_ipc t a = if t.has_ipc then some a else none

unfoldable pub tx_sem_post : NvipcTransport → Option NvipcTransport
unfolding with_ipc
tx_sem_post t = with_ipc t (record t { tx_sem_posts = t.tx_sem_posts + 1 })
