-- ===== src/Defaults.antt =====
-- cloud/common/defaults.go: the constants, the tables of regions and the generated names. A Go map
-- is an association list with one entry for each key, in the source's order; a nil map is empty.
mod Regions
use cluster_api_provider_ucl.Prelude.{
  ℤ, pos, String, ◌<>◌, Option, none, some, List, [], ◌∷◌, lookup,
}

abbrev pub default_user_name : String
default_user_name = "capi"

abbrev pub default_vnet_cidr : String
default_vnet_cidr = "10.0.0.0/8"

abbrev pub default_control_plane_subnet_cidr : String
default_control_plane_subnet_cidr = "10.0.0.0/16"

abbrev pub default_node_subnet_cidr : String
default_node_subnet_cidr = "10.1.0.0/16"

abbrev pub default_internal_lb_ip_address : String
default_internal_lb_ip_address = "10.0.0.100"

abbrev pub user_agent : String
user_agent = "cluster-api-ucloud-services"

abbrev pub default_nat_gateway_eip_bandwidth : ℤ
default_nat_gateway_eip_bandwidth = pos 10

abbrev pub default_uhost_cpu : ℤ
default_uhost_cpu = pos 4

abbrev pub default_uhost_memory : ℤ
default_uhost_memory = pos 8192

abbrev pub default_uhost_root_disk_size : ℤ
default_uhost_root_disk_size = pos 40

abbrev pub default_uhost_data_disk_size : ℤ
default_uhost_data_disk_size = pos 40

abbrev pub cluster_api_uuid_namespace : String
cluster_api_uuid_namespace = "e364031d-ad93-4744-b411-85bb870a8623"

unfoldable pub region_zone_map : List (String × List String)
region_zone_map =
    ("cn-bj1", "cn-bj1-01" ∷ [])
    ∷ ("cn-bj2", "cn-bj2-02" ∷ "cn-bj2-03" ∷ "cn-bj2-04" ∷ "cn-bj2-05" ∷ [])
    ∷ ("cn-sh", "cn-sh-02" ∷ "cn-sh-03" ∷ [])
    ∷ ("cn-sh2", "cn-sh2-02" ∷ "cn-sh2-03" ∷ [])
    ∷ ("cn-gd", "cn-gd-02" ∷ [])
    ∷ ("cn-gd2", "cn-gd2-01" ∷ [])
    ∷ ("hk", "hk-01" ∷ "hk-02" ∷ [])
    ∷ ("tw-tp", "tw-tp-01" ∷ [])
    ∷ ("tw-tp2", "tw-tp2-01" ∷ [])
    ∷ ("tw-kh", "tw-kh-01" ∷ [])
    ∷ ("jpn-tky", "jpn-tky-01" ∷ [])
    ∷ ("kr-seoul", "kr-seoul-01" ∷ [])
    ∷ ("th-bkk", "th-bkk-01" ∷ [])
    ∷ ("sg", "sg-01" ∷ [])
    ∷ ("idn-jakarta", "idn-jakarta-01" ∷ [])
    ∷ ("vn-sng", "vn-sng-01" ∷ [])
    ∷ ("us-ca", "us-ca-01" ∷ [])
    ∷ ("us-ws", "us-ws-01" ∷ [])
    ∷ ("rus-mosc", "rus-mosc-01" ∷ [])
    ∷ ("ge-fra", "ge-fra-01" ∷ [])
    ∷ ("uk-london", "uk-london-01" ∷ [])
    ∷ ("ind-mumbai", "ind-mumbai-01" ∷ [])
    ∷ ("uae-dubai", "uae-dubai-01" ∷ [])
    ∷ ("bra-saopaulo", "bra-saopaulo-01" ∷ [])
    ∷ ("afr-nigeria", "afr-nigeria-01" ∷ [])
    ∷ []

unfoldable pub region_image_map : List (String × List (String × String))
region_image_map =
    ("cn-bj1", [])
    ∷ (
      "cn-bj2",
      ("cn-bj2-02", "uimage-kdwczn")
          ∷ ("cn-bj2-03", "uimage-aodbek")
          ∷ ("cn-bj2-04", "uimage-igmic5")
          ∷ ("cn-bj2-05", "uimage-edkznm")
          ∷ [],
    )
    ∷ ("cn-sh", [])
    ∷ ("cn-sh2", [])
    ∷ ("cn-gd", [])
    ∷ ("cn-gd2", [])
    ∷ ("hk", [])
    ∷ ("tw-tp", [])
    ∷ ("tw-tp2", [])
    ∷ ("tw-kh", [])
    ∷ ("jpn-tky", [])
    ∷ ("kr-seoul", [])
    ∷ ("th-bkk", [])
    ∷ ("sg", [])
    ∷ ("idn-jakarta", [])
    ∷ ("vn-sng", [])
    ∷ ("us-ca", [])
    ∷ ("us-ws", [])
    ∷ ("rus-mosc", [])
    ∷ ("ge-fra", [])
    ∷ ("uk-london", [])
    ∷ ("ind-mumbai", [])
    ∷ ("uae-dubai", [])
    ∷ ("bra-saopaulo", [])
    ∷ ("afr-nigeria", [])
    ∷ []

unfoldable pub region_eip_operator : List (String × String)
region_eip_operator =
    ("cn-bj1", "Bgp")
    ∷ ("cn-bj2", "Bgp")
    ∷ ("cn-sh", "Bgp")
    ∷ ("cn-sh2", "Bgp")
    ∷ ("cn-gd", "Bgp")
    ∷ ("cn-gd2", "Bgp")
    ∷ ("hk", "International")
    ∷ ("tw-tp", "International")
    ∷ ("tw-tp2", "International")
    ∷ ("tw-kh", "International")
    ∷ ("jpn-tky", "International")
    ∷ ("kr-seoul", "International")
    ∷ ("th-bkk", "International")
    ∷ ("sg", "International")
    ∷ ("idn-jakarta", "International")
    ∷ ("vn-sng", "International")
    ∷ ("us-ca", "International")
    ∷ ("us-ws", "International")
    ∷ ("rus-mosc", "International")
    ∷ ("ge-fra", "International")
    ∷ ("uk-london", "International")
    ∷ ("ind-mumbai", "International")
    ∷ ("uae-dubai", "International")
    ∷ ("bra-saopaulo", "International")
    ∷ ("afr-nigeria", "International")
    ∷ []

-- `zones, ok := RegionZoneMap[region]`.
unfoldable pub region_zones : String → Option (List String)
unfolding region_zone_map
region_zones region = lookup region region_zone_map

-- `RegionImageMap[region][zone]`, with Go's zero value where a key is missing.
abbrev or_empty : Option (List (String × String)) → List (String × String)
or_empty none = []
or_empty (some m) = m

abbrev pub or_blank : Option String → String
or_blank none = ""
or_blank (some v) = v

unfoldable pub region_image : String → String → String
unfolding region_image_map
region_image region zone = or_blank (lookup zone (or_empty (lookup region region_image_map)))

-- `RegionEIPOperator[region]`.
unfoldable pub eip_operator : String → String
unfolding region_eip_operator
eip_operator region = or_blank (lookup region region_eip_operator)

abbrev pub generate_vnet_name : String → String
generate_vnet_name cluster_name = cluster_name <> "-" <> "vnet"

abbrev pub generate_control_plane_security_group_name : String → String
generate_control_plane_security_group_name cluster_name = cluster_name <> "-" <> "controlplane-nsg"

abbrev pub generate_node_security_group_name : String → String
generate_node_security_group_name cluster_name = cluster_name <> "-" <> "node-nsg"

abbrev pub generate_node_route_table_name : String → String
generate_node_route_table_name cluster_name = cluster_name <> "-" <> "node-routetable"

abbrev pub generate_control_plane_subnet_name : String → String
generate_control_plane_subnet_name cluster_name = cluster_name <> "-" <> "controlplane-subnet"

abbrev pub generate_node_subnet_name : String → String
generate_node_subnet_name cluster_name = cluster_name <> "-" <> "node-subnet"

abbrev pub generate_internal_lb_name : String → String
generate_internal_lb_name cluster_name = cluster_name <> "-" <> "internal-lb"

abbrev pub generate_public_lb_name : String → String
generate_public_lb_name cluster_name = cluster_name <> "-" <> "public-lb"

abbrev pub generate_public_ip_name : String → String → String
generate_public_ip_name cluster_name hash = cluster_name <> "-" <> hash

abbrev pub generate_nic_name : String → String
generate_nic_name machine_name = machine_name <> "-nic"

abbrev pub generate_os_disk_name : String → String
generate_os_disk_name machine_name = machine_name <> "_OSDisk"
