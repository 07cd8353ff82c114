-- ===== src/Swarm/Examples/MachineId.antt =====
-- The choice of an interface at a concrete machine.
use gole.Base.{true, false, List, [], ◌∷◌, codes}
use gole.Swarm.MachineId.{Iface}

abbrev ifaces : List Iface
ifaces =
    record { iface_name = codes "lo"; up = true; loopback = true; hardware_addr = [] }
    ∷ record {
      iface_name = codes "docker0";
      up = true;
      loopback = false;
      hardware_addr = 1 ∷ 2 ∷ [];
    }
    ∷ record { iface_name = codes "usb0"; up = true; loopback = false; hardware_addr = 3 ∷ 4 ∷ [] }
    ∷ record {
      iface_name = codes "enp3s0";
      up = true;
      loopback = false;
      hardware_addr = 5 ∷ 171 ∷ [];
    }
    ∷ []
