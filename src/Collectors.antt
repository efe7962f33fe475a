-- ===== src/Collectors.antt =====
-- src/core/collectors: the registry, the helpers that parse /proc files, and the collectors.
pub mod Error
pub mod Registry
pub mod Procfs
pub mod Counters
pub mod Maps
pub mod Disk
pub mod Cpu
pub mod FileFd
pub mod Vmstat
pub mod Filesys
pub mod Network
pub mod Search
pub mod Mdraid
pub mod Parsing
pub mod Arp
pub mod Netstat
pub mod Sockstat
pub mod Ipvs
pub mod Softnet
pub mod Schedstat
pub mod Stat
pub mod Processes
pub mod Ram
pub mod Avg
pub mod Uptime
pub mod Conntrack
pub mod Pressure
pub mod Sysfs
pub mod Thermal
pub mod Hwmon
pub mod Edac
pub mod Powerstat
pub mod Sysmd
pub mod Ntp
