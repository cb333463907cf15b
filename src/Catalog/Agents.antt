-- ===== src/Catalog/Agents.antt =====
-- `AGENT_CATALOG` of crates/console-server/src/history/catalog.rs: the macro that expands the block of
-- one device, and its eight expansions.
use muser_console.Base.{ℕ, Text, codes, List, [], ◌∷◌, ◌++◌}
use muser_console.Catalog.Series.{Series, agent_gpu, agent_host}

abbrev pub max_agent_gpus : ℕ
max_agent_gpus = 8

-- the unit of a temperature, a degree sign and a C
abbrev celsius : Text
celsius = 0xb0 ∷ b'C' ∷ []

abbrev named : Text → Text → Text
named index reading = codes "gpu" ++ (index ++ reading)

-- the block of the macro for one index
abbrev agent_device : Text → List Series
agent_device index =
    agent_gpu (named index (codes "_utilization_ratio")) (codes "ratio")
      (codes "muser_gpu_utilization_ratio") index
    ∷ agent_gpu (named index (codes "_power_watts")) (codes "W") (codes "muser_gpu_power_watts")
        index
    ∷ agent_gpu (named index (codes "_temperature_celsius")) celsius
        (codes "muser_gpu_temperature_celsius") index
    ∷ agent_gpu (named index (codes "_memory_used_bytes")) (codes "bytes")
        (codes "muser_gpu_memory_used_bytes") index
    ∷ agent_gpu (named index (codes "_memory_total_bytes")) (codes "bytes")
        (codes "muser_gpu_memory_total_bytes") index
    ∷ []

abbrev agent_hosts : List Series
agent_hosts =
    agent_host (codes "host_package_power_watts") (codes "W")
      (codes "muser_host_package_power_watts")
    ∷ agent_host (codes "host_cpu_power_watts") (codes "W") (codes "muser_host_cpu_power_watts")
    ∷ agent_host (codes "host_gpu_power_watts") (codes "W") (codes "muser_host_gpu_power_watts")
    ∷ []

-- the macro: one block for each index, then the host's readings
abbrev agent_series : List Text → List Series
agent_series [] = agent_hosts
agent_series (index ∷ rest) = agent_device index ++ agent_series rest

abbrev pub gpu_indices : List Text
gpu_indices =
    codes "0"
    ∷ codes "1"
    ∷ codes "2"
    ∷ codes "3"
    ∷ codes "4"
    ∷ codes "5"
    ∷ codes "6"
    ∷ codes "7"
    ∷ []

unfoldable pub agent_catalog : List Series
agent_catalog = agent_series gpu_indices
