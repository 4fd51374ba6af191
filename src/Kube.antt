-- ===== src/Kube.antt =====
-- What the code reads of the Kubernetes API objects that it is handed: `v1.Service`, `v1.Node` and
-- their parts. These types are declared by a library; the fields that the code does not read are
-- left out. A nil map of annotations reads as an empty one. Ports are 1 to 65535 by the API.
use swiss_otc_k8s_cloud_mana.Base.{ℕ, List}
use swiss_otc_k8s_cloud_mana.Base.Text.{Text}
use swiss_otc_k8s_cloud_mana.Base.Dict.{Dict}

pub data Protocol : Type 0 where
  tcp udp sctp : Protocol

-- The largest number of a port.
abbrev pub max_port : ℕ
max_port = 65535

pub record ServicePort : Type 0 where
  pub protocol : Protocol
  pub port : ℕ
  pub node_port : ℕ

pub record Service : Type 0 where
  pub namespace : Text
  pub name : Text
  pub annotations : Dict Text
  pub ports : List ServicePort

pub data AddressType : Type 0 where
  host_name internal_ip external_ip internal_dns external_dns : AddressType

pub record NodeAddress : Type 0 where
  pub type : AddressType
  pub address : Text

pub record Node : Type 0 where
  pub name : Text
  pub provider_id : Text
  pub addresses : List NodeAddress
