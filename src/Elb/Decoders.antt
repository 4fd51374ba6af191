-- ===== src/Elb/Decoders.antt =====
-- How the types of client.go are read from JSON, by the names in their tags.
use Prim.Native.String.{String}
use swiss_otc_k8s_cloud_mana.Base.{Bool, true, false, ◌&&◌}
use swiss_otc_k8s_cloud_mana.Base.Text.{Text, lit}
use swiss_otc_k8s_cloud_mana.Json.{
  Json, Decoder, read_text, field, is_object, text, int, int_pointer, list_of,
}
use swiss_otc_k8s_cloud_mana.Elb.Types.{
  Runtime, PublicIpInfo, EipInfo, LoadBalancerDetails, PoolDetails, ListenerInfo, EipDetails,
  SecurityGroupRule, PortDetails,
}

-- A field of a document as a text.
abbrev pub text_at : String → Json → Text
text_at k j = read_text (field (lit k) j)

abbrev pub fits_at : {A : Type 0} → Decoder A → String → Json → Bool
fits_at d k j = d.fits (field (lit k) j)

abbrev pub public_ip_info : Decoder PublicIpInfo
public_ip_info = record {
  read = λ j. record {
    publicip_id = text_at "publicip_id" j;
    publicip_address = text_at "publicip_address" j;
    ip_version = int.read (field (lit "ip_version") j);
  };
  fits = λ j.
      is_object j
      && fits_at text "publicip_id" j
      && fits_at text "publicip_address" j
      && fits_at int "ip_version" j;
}

abbrev pub eip_info : Decoder EipInfo
eip_info = record {
  read = λ j. record {
    eip_id = text_at "eip_id" j;
    eip_address = text_at "eip_address" j;
    ip_version = int.read (field (lit "ip_version") j);
  };
  fits = λ j.
      is_object j
      && fits_at text "eip_id" j
      && fits_at text "eip_address" j
      && fits_at int "ip_version" j;
}

abbrev time_fits : (Text → Bool) → Json → Bool
time_fits is_time (Json.str s) = is_time s
time_fits is_time Json.null = true
time_fits is_time _ = false

abbrev time : Runtime → Decoder Text
time rt = record { read = read_text; fits = time_fits rt.is_time }

unfoldable pub load_balancer_details : Runtime → Decoder LoadBalancerDetails
load_balancer_details rt = record {
  read = λ j. record {
    id = text_at "id" j;
    name = text_at "name" j;
    description = text_at "description" j;
    vip_address = text_at "vip_address" j;
    vip_port_id = text_at "vip_port_id" j;
    vip_subnet_cidr_id = text_at "vip_subnet_cidr_id" j;
    provider = text_at "provider" j;
    operating_status = text_at "operating_status" j;
    provisioning_status = text_at "provisioning_status" j;
    public_ips = (list_of public_ip_info).read (field (lit "publicips") j);
    eips = (list_of eip_info).read (field (lit "eips") j);
    created_at = text_at "created_at" j;
    updated_at = text_at "updated_at" j;
  };
  fits = λ j.
      is_object j
      && fits_at text "id" j
      && fits_at text "name" j
      && fits_at text "description" j
      && fits_at text "vip_address" j
      && fits_at text "vip_port_id" j
      && fits_at text "vip_subnet_cidr_id" j
      && fits_at text "provider" j
      && fits_at text "operating_status" j
      && fits_at text "provisioning_status" j
      && fits_at (list_of public_ip_info) "publicips" j
      && fits_at (list_of eip_info) "eips" j
      && fits_at (time rt) "created_at" j
      && fits_at (time rt) "updated_at" j;
}

unfoldable pub pool_details : Decoder PoolDetails
pool_details = record {
  read =
      λ j. record { id = text_at "id" j; name = text_at "name" j; protocol = text_at "protocol" j };
  fits =
      λ j. is_object j && fits_at text "id" j && fits_at text "name" j && fits_at text "protocol" j;
}

unfoldable pub listener_info : Decoder ListenerInfo
listener_info = record {
  read = λ j. record {
    id = text_at "id" j;
    name = text_at "name" j;
    protocol = text_at "protocol" j;
    protocol_port = int.read (field (lit "protocol_port") j);
    default_pool_id = text_at "default_pool_id" j;
  };
  fits = λ j.
      is_object j
      && fits_at text "id" j
      && fits_at text "name" j
      && fits_at text "protocol" j
      && fits_at int "protocol_port" j
      && fits_at text "default_pool_id" j;
}

unfoldable pub eip_details : Decoder EipDetails
eip_details = record {
  read = λ j. record {
    id = text_at "id" j;
    public_ip_address = text_at "public_ip_address" j;
    status = text_at "status" j;
    port_id = text_at "port_id" j;
  };
  fits = λ j.
      is_object j
      && fits_at text "id" j
      && fits_at text "public_ip_address" j
      && fits_at text "status" j
      && fits_at text "port_id" j;
}

unfoldable pub security_group_rule : Decoder SecurityGroupRule
security_group_rule = record {
  read = λ j. record {
    id = text_at "id" j;
    direction = text_at "direction" j;
    protocol = text_at "protocol" j;
    port_range_min = int_pointer.read (field (lit "port_range_min") j);
    port_range_max = int_pointer.read (field (lit "port_range_max") j);
    remote_ip_prefix = text_at "remote_ip_prefix" j;
    security_group_id = text_at "security_group_id" j;
  };
  fits = λ j.
      is_object j
      && fits_at text "id" j
      && fits_at text "direction" j
      && fits_at text "protocol" j
      && fits_at int_pointer "port_range_min" j
      && fits_at int_pointer "port_range_max" j
      && fits_at text "remote_ip_prefix" j
      && fits_at text "security_group_id" j;
}

unfoldable pub port_details : Decoder PortDetails
port_details = record {
  read = λ j. record {
    id = text_at "id" j;
    security_groups = (list_of text).read (field (lit "security_groups") j);
  };
  fits = λ j. is_object j && fits_at text "id" j && fits_at (list_of text) "security_groups" j;
}

-- A struct that declares only the field `id`.
unfoldable pub id_only : Decoder Text
id_only = record { read = λ j. text_at "id" j; fits = λ j. is_object j && fits_at text "id" j }
