-- ===== src/Discovery/Targets.antt =====
-- `buildSubnetTargets` of koreader-plugin/internal/localsend/scan.go: the addresses of a scan. The text
-- of an address is that of `net.IP.String`, the bytes of an address are numbers.
use pdf_to_epub.FilePath.{contains}
use pdf_to_epub.Prelude.{
  ℕ, zero, suc, Bool, ◌&&◌, List, [], ◌∷◌, ◌++◌, ◌==◌, if◌then◌else◌, Str, any,
}
use pdf_to_epub.UniqueFile.Decimal.{decimal}

-- An address with four bytes, or one for which `To4` gives nil.
pub data Ip : Type 0 where
  ipv4 : ℕ → ℕ → ℕ → ℕ → Ip
  no_ipv4 : Ip

pub record Subnet : Type 0 where
  pub first : ℕ
  pub second : ℕ
  pub third : ℕ

unfoldable pub address_text : Subnet → ℕ → Str
address_text net host =
    decimal net.first
    ++ (b'.' ∷ decimal net.second ++ (b'.' ∷ decimal net.third ++ (b'.' ∷ decimal host)))

abbrev pub same_subnet : Subnet → Subnet → Bool
same_subnet p q = p.first == q.first && p.second == q.second && p.third == q.third

-- The first loop: the subnets, each once, and the local addresses.
abbrev pub add_subnet : Subnet → List Subnet → List Subnet
add_subnet p subnets = if any (same_subnet p) subnets then subnets else subnets ++ (p ∷ [])

abbrev pub add_ip : Ip → List Subnet × List Str → List Subnet × List Str
add_ip no_ipv4 found = found
add_ip (ipv4 a b c d) (subnets, local) =
    let p : Subnet = record { first = a; second = b; third = c } in
    (add_subnet p subnets, address_text p d ∷ local)

unfoldable pub collect : List Ip → List Subnet × List Str → List Subnet × List Str
collect [] found = found
collect (ip ∷ ips) found = collect ips (add_ip ip found)

-- One host in each of the subnets.
unfoldable pub host_targets : List Str → ℕ → List Subnet → List Str
host_targets local host [] = []
host_targets local host (p ∷ subnets) =
    let rest = host_targets local host subnets in
    if contains local (address_text p host) then rest else address_text p host ∷ rest

-- The hosts from one on, a number of them.
unfoldable pub host_rounds : List Str → List Subnet → ℕ → ℕ → List Str
host_rounds local subnets host zero = []
host_rounds local subnets host (suc rounds) =
    host_targets local host subnets ++ host_rounds local subnets (suc host) rounds

unfoldable pub build_subnet_targets : List Ip → List Str
build_subnet_targets ips =
    let (subnets, local) = collect ips ([], []) in host_rounds local subnets 1 254
