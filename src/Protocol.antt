-- ===== src/Protocol.antt =====
-- internal/protocol/protocol.go: the messages of the control channel.
pub mod Frame
pub mod Encode
pub mod Decode
pub mod Codec
use lotun.Base.{Bool, List}
use lotun.Base.Int.{ℤ}
use lotun.Base.Bytes.{Bytes, bytes}

-- TunnelType is a string type: a request may carry any string in it.
abbrev pub TunnelType : Type 0
TunnelType = Bytes

abbrev pub http : TunnelType
http = bytes "http"

abbrev pub tcp : TunnelType
tcp = bytes "tcp"

pub record Auth : Type 0 where
  pub token : Bytes

pub record Register : Type 0 where
  pub type : TunnelType
  pub domain : Bytes
  pub local_port : ℤ
  pub remote_port : ℤ
  pub private : Bool
  pub password : Bytes
  pub allow_ips : List Bytes

pub record Registered : Type 0 where
  pub public_url : Bytes
  pub host : Bytes
  pub port : ℤ
  pub generated_password : Bytes

pub record TunnelInfo : Type 0 where
  pub type : TunnelType
  pub subdomain : Bytes
  pub public_url : Bytes
  pub port : ℤ
  pub local_port : ℤ

-- The ten types that implement `Message`.
pub data Message : Type 0 where
  auth : Auth → Message
  auth_ok : Message
  register : Register → Message
  registered : Registered → Message
  error : Bytes → Message
  claim : Bytes → Message
  unclaim : Bytes → Message
  ok : Message
  list_tunnels : Message
  tunnel_list : List TunnelInfo → Message

pub record StreamHeader : Type 0 where
  pub tunnel_id : Bytes
  pub local_port : ℤ
