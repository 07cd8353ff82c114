-- ===== src/Swarm/Examples/Config.antt =====
-- The configuration's theorems at concrete inputs.
use gole.Base.{true, false, []}
use gole.Swarm.Config.{EndpointConfig}

abbrev settings : EndpointConfig
settings = record {
  local_id = [];
  relay_eligible = true;
  priority = false;
  registrar_addr = [];
  registrar_srv = [];
  transport = record { mode = []; pinned_relay = []; probe_interval = []; threshold = [] };
}
