-- ===== src/Collectors/Registry.antt =====
-- src/core/collectors/mod.rs: the registry. `built` tells for a name whether the build has its Cargo feature
-- and its target.
use blazebee.Base.{Bool, Option, none, some, List, [], ◌∷◌, if◌then◌else◌}
use blazebee.Base.Text.{Text, codes, text_eq}

-- A collector's kind, which the constructor `build` makes.
pub data Kind : Type 0 where
  arp conntrack cpu disk edac entropy filefd filesystem hwmon ipvs load_average mdraid netstat
        network ntp :
      Kind
  power pressure processes ram schedstat sockstat softnet stat systemd thermal uptime vmstat : Kind

pub record Descriptor : Type 0 where
  pub name : Text
  pub build : Kind

abbrev all : List Descriptor
all =
    record { name = codes "arp"; build = arp }
    ∷ record { name = codes "conntrack"; build = conntrack }
    ∷ record { name = codes "cpu"; build = cpu }
    ∷ record { name = codes "disk"; build = disk }
    ∷ record { name = codes "edac"; build = edac }
    ∷ record { name = codes "entropy"; build = entropy }
    ∷ record { name = codes "filefd"; build = filefd }
    ∷ record { name = codes "filesystem"; build = filesystem }
    ∷ record { name = codes "hwmon"; build = hwmon }
    ∷ record { name = codes "ipvs"; build = ipvs }
    ∷ record { name = codes "load_average"; build = load_average }
    ∷ record { name = codes "mdraid"; build = mdraid }
    ∷ record { name = codes "netstat"; build = netstat }
    ∷ record { name = codes "network"; build = network }
    ∷ record { name = codes "ntp"; build = ntp }
    ∷ record { name = codes "power"; build = power }
    ∷ record { name = codes "pressure"; build = pressure }
    ∷ record { name = codes "processes"; build = processes }
    ∷ record { name = codes "ram"; build = ram }
    ∷ record { name = codes "schedstat"; build = schedstat }
    ∷ record { name = codes "sockstat"; build = sockstat }
    ∷ record { name = codes "softnet"; build = softnet }
    ∷ record { name = codes "stat"; build = stat }
    ∷ record { name = codes "systemd"; build = systemd }
    ∷ record { name = codes "thermal"; build = thermal }
    ∷ record { name = codes "uptime"; build = uptime }
    ∷ record { name = codes "vmstat"; build = vmstat }
    ∷ []

abbrev compiled : (Text → Bool) → List Descriptor → List Descriptor
compiled built [] = []
compiled built (d ∷ ds) = let rest = compiled built ds in if built d.name then d ∷ rest else rest

unfoldable pub registry : (Text → Bool) → List Descriptor
registry built = compiled built all

unfoldable pub find_in : List Descriptor → Text → Option Descriptor
find_in [] name = none
find_in (d ∷ ds) name = let rest = find_in ds name in if text_eq d.name name then some d else rest

unfoldable pub find : (Text → Bool) → Text → Option Descriptor
find built name = find_in (registry built) name

abbrev names_of : List Descriptor → List Text
names_of [] = []
names_of (d ∷ ds) = d.name ∷ names_of ds

unfoldable pub names : (Text → Bool) → List Text
names built = names_of (registry built)
